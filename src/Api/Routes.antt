-- ===== src/Api/Routes.antt =====
-- The second half of `handle` of src/api.cpp: the routes, on the calls of the store and the pending
-- intents of the rotation manager.
pub mod Cases
pub mod Safety
pub mod ReadOnly
pub mod Effects
pub mod Answers
mod Tests
use autodngconverter.Base.{
  ℕ, Bool, true, false, ◌&&◌, Option, none, some, List, [], ◌∷◌, ◌++◌, Bytes, codes, bytes_eq,
  bytes_eq_instance, lookup, is_empty, starts_with, drop, ℤ, pos, pos_part, ltb_ℤ, stoi, show_int,
  to_string, if◌then◌else◌,
}
use autodngconverter.Pipeline.Types.{
  ImportRecord, ImportStatus, ConversionSettings, default_settings, ReconversionJob,
}
use autodngconverter.Metrics.{Metrics, render}
use autodngconverter.Rotation.{Manager, queue}
use autodngconverter.Db.Server.{Trace, Server}
use autodngconverter.Db.Operations.{
  get_import_by_sequence, get_import_by_hash, get_import_by_source_path, get_import_by_output_path,
  insert_reconversion, update_output_hash, record_preview_edit,
}
use autodngconverter.Db.Listing.{Stats, ping, get_stats, list_imports}
use autodngconverter.Api.Json.{json_escape, record_to_json, json_get}
use autodngconverter.Api.Request.{Request, find_text, up_to, body, parse_request, is_allowed}
use autodngconverter.Api.World.{
  Response, World, Services, json, answer, on_db, int_param, text_param, at_least_one, stats_text,
  records_text, list_text, show_found, imports, imports_hash, contains_text, job_of, orientation_of,
}

module _ (sv : Services) where
  unfoldable pub ready : World → Option Response × World
  ready w =
      let (ok, t) = ping sv.server w.db in
      if ok
      then answer 200 (codes "{\"status\":\"ready\",\"db\":\"ok\"}") (on_db w t)
      else answer 503 (codes "{\"status\":\"not-ready\",\"db\":\"unavailable\"}") (on_db w t)

  unfoldable pub stats : World → Option Response × World
  stats w =
      let (s, t) = get_stats sv.server sv.strtoll w.db in answer 200 (stats_text s) (on_db w t)

  unfoldable pub list_page : Request → ℕ → ℕ → World → Option Response × World
  list_page r page limit w =
      let (rows, t) =
        list_imports sv.server sv.strtoll sv.atoi page limit (text_param r (codes "status"))
          (text_param r (codes "camera")) w.db in
      let (s, u) = get_stats sv.server sv.strtoll t in
      answer 200 (list_text s page limit rows) (on_db w u)

  -- The two numbers, if both can be read.
  unfoldable pub list_at : Request → Option ℤ → Option ℤ → World → Option Response × World
  list_at r (some page) (some limit) w = list_page r (at_least_one page 1) (at_least_one limit 50) w
  list_at r _ _ w = (none, w)

  unfoldable pub list : Request → World → Option Response × World
  list r = list_at r (int_param r (codes "page") (pos 1)) (int_param r (codes "limit") (pos 50))

  unfoldable pub by_hash : Request → World → Option Response × World
  by_hash r w =
      let (found, t) = get_import_by_hash sv.server sv.strtoll sv.atoi (drop 21 r.path) w.db in
      show_found found (on_db w t)

  unfoldable pub by_source : Request → World → Option Response × World
  by_source r w =
      let (found, t) =
        get_import_by_source_path sv.server sv.strtoll sv.atoi (text_param r (codes "path")) w.db in
      show_found found (on_db w t)

  unfoldable pub by_sequence : Request → World → Option Response × World
  by_sequence r w =
      let (found, t) = get_import_by_sequence sv.server sv.strtoll sv.atoi (drop 16 r.path) w.db in
      show_found found (on_db w t)

  unfoldable pub insert_job : Bytes → Bytes → ImportRecord → World → Option Response × World
  insert_job text seq r w =
      let (rid, t) = insert_reconversion sv.server show_int r.id (job_of text r) w.db in
      answer 200
        (codes "{\"reconversion_id\":"
          ++ to_string rid
          ++ codes ",\"sequence\":\""
          ++ json_escape seq
          ++ codes "\",\"status\":\"pending\",\"queued_at\":\"\"}")
        (on_db w t)

  unfoldable pub reconvert_found :
      Bytes → Bytes → Option ImportRecord → World → Option Response × World
  reconvert_found text seq none w = answer 404 (codes "{\"error\":\"not-found\"}") w
  reconvert_found text seq (some r) w = insert_job text seq r w

  unfoldable pub reconvert : Request → World → Option Response × World
  reconvert r w =
      let seq = up_to (codes "/reconvert") (drop 16 r.path) in
      let (found, t) = get_import_by_sequence sv.server sv.strtoll sv.atoi seq w.db in
      reconvert_found (body r.text) seq found (on_db w t)

  -- The new digest is stored, and then the edit is recorded; neither result is looked at.
  unfoldable pub sync_hash : ImportRecord → Bytes → World → Option Response × World
  sync_hash r h w =
      let t = (update_output_hash sv.server r.id h w.db).1 in
      let u =
        (record_preview_edit sv.server r.id (codes "api-preview-updated") r.output_hash h (pos 0)
          (pos 0) (pos 0) t).1 in
      answer 200 (codes "{\"status\":\"synced\"}") (on_db w u)

  unfoldable pub preview_found : Bytes → Option ImportRecord → World → Option Response × World
  preview_found path none w = answer 404 (codes "{\"error\":\"not-found\"}") w
  preview_found path (some r) w =
      let h = sv.sha256_file w.db path in
      if is_empty h then answer 500 (codes "{\"error\":\"hash-failed\"}") w else sync_hash r h w

  unfoldable pub preview_updated : Request → World → Option Response × World
  preview_updated r w =
      let path = json_get (body r.text) (codes "output_path") in
      let (found, t) = get_import_by_output_path sv.server sv.strtoll sv.atoi path w.db in
      if is_empty path
      then answer 400 (codes "{\"error\":\"missing-output_path\"}") w
      else preview_found path found (on_db w t)

  unfoldable pub queue_rotation :
      Manager → ℤ → Bytes → Option ImportRecord → World → Option Response × World
  queue_rotation m orientation client none w = answer 404 (codes "{\"error\":\"not-found\"}") w
  queue_rotation m orientation client (some r) w =
      answer 200 (codes "{\"status\":\"queued\"}") (record {
        db = w.db;
        rotation = some (
            queue (sv.now w.db)
              (record {
                import_id = r.id;
                dng_path = r.output_path;
                orientation = orientation;
                client_id = client;
              })
              m);
      })

  -- With a manager and an orientation that can be read: the import of the source path.
  unfoldable pub turn : Request → Option Manager → Option ℤ → World → Option Response × World
  turn r none o w = answer 503 (codes "{\"error\":\"rotation-disabled\"}") w
  turn r (some m) none w = (none, w)
  turn r (some m) (some o) w =
      let (found, t) =
        get_import_by_source_path sv.server sv.strtoll sv.atoi
          (json_get (body r.text) (codes "source_path")) w.db in
      queue_rotation m o (json_get (body r.text) (codes "client_id")) found (on_db w t)

  unfoldable pub rotation_updated : Request → World → Option Response × World
  rotation_updated r w =
      turn r w.rotation (orientation_of (json_get (body r.text) (codes "orientation"))) w

  abbrev no_route : World → Option Response × World
  no_route w = answer 404 (codes "{\"error\":\"no-route\"}") w

  unfoldable pub get_route : Request → World → Option Response × World
  get_route r w =
      if bytes_eq r.path (codes "/health")
      then answer 200 (codes "{\"status\":\"ok\"}") w
      else if bytes_eq r.path (codes "/ready")
      then ready w
      else if bytes_eq r.path (codes "/metrics")
      then (
        some (record {
          code = 200;
          body = render sv.show_sum sv.metrics;
          content_type = codes "text/plain; version=0.0.4";
        }),
        w,
      )
      else if bytes_eq r.path (codes "/api/v1/stats")
      then stats w
      else if bytes_eq r.path (codes "/api/v1/alerts")
      then answer 200 (codes "{\"alerts\":[]}") w
      else if bytes_eq r.path (codes "/api/v1/imports")
      then list r w
      else if starts_with imports_hash r.path
      then by_hash r w
      else if starts_with (codes "/api/v1/imports/by-source") r.path
      then by_source r w
      else if starts_with imports r.path
      then by_sequence r w
      else no_route w

  unfoldable pub post_route : Request → World → Option Response × World
  post_route r w =
      if starts_with imports r.path && contains_text (codes "/reconvert") r.path
      then reconvert r w
      else if bytes_eq r.path (codes "/api/v1/imports/by-path/preview-updated")
      then preview_updated r w
      else if bytes_eq r.path (codes "/api/v1/imports/by-source/rotation-updated")
      then rotation_updated r w
      else no_route w

  unfoldable pub route : Request → World → Option Response × World
  route r w =
      if bytes_eq r.method (codes "GET")
      then get_route r w
      else if bytes_eq r.method (codes "POST")
      then post_route r w
      else no_route w

  unfoldable pub handle_request : Option Request → World → Option Response × World
  handle_request none w = answer 400 (codes "{\"error\":\"bad-request\"}") w
  handle_request (some r) w =
      if is_allowed sv.api_token r
      then route r w
      else answer 401 (codes "{\"error\":\"unauthorized\"}") w

  -- The answer to the text that was read.
  unfoldable pub handle : Bytes → World → Option Response × World
  handle req w =
      if is_empty req
      then answer 400 (codes "{\"error\":\"empty\"}") w
      else handle_request (parse_request req) w
