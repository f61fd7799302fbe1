-- ===== src/Api/Routes/Effects.antt =====
-- What requests change, by the routes of src/api.cpp.
use autodngconverter.Base.{
  ◌≡◌, refl, Bool, true, false, Option, none, some, [], ◌∷◌, Bytes, codes, is_empty, ℕ, ℤ, pos,
  List, if-Holds, show_int,
}
use autodngconverter.Pipeline.Types.{ImportRecord}
use autodngconverter.Rotation.{Manager, Intent, queue}
use autodngconverter.Db.Server.{
  Sql, Cell, number, text, int, executed, Trace, Server, statement, run,
}
use autodngconverter.Db.Operations.{
  inserted, insert_reconversion, reconversion_cells, update_output_hash, record_preview_edit,
}
use autodngconverter.Db.Writes.{
  is_read, written, by_sequence-Reads, by_source_path-Reads, by_output_path-Reads,
}
use autodngconverter.Api.Request.{Request, body}
use autodngconverter.Api.Json.{json_get}
use autodngconverter.Api.World.{World, Services, job_of, on_db}
use autodngconverter.Api.Routes.{
  ready, stats, list, list_at, list_page, by_hash, by_source, by_sequence, reconvert,
  reconvert_found, turn, insert_job, preview_updated, preview_found, sync_hash, rotation_updated,
  queue_rotation, route, get_route, handle,
}
use autodngconverter.Api.Routes
use autodngconverter.Api.Routes.ReadOnly.{OnlyReads, get-OnlyReads}
use autodngconverter.Api.Routes.Cases.{Result, GetCases, PostCases, route-Holds, handle-Holds}

-- What a request may change: nothing; one row of a reconversion; the digest of one import, which is not
-- empty, with the record of the edit; or one intent for the rotation manager.
pub data Effect (w : World) : World → Type 0 where
  nothing : (v : World) → written v.db ≡ written w.db → v.rotation ≡ w.rotation → Effect w v
  queued_job :
      (v : World) (cells : List Cell) (ok : Bool)
      → written v.db ≡ executed Sql.insert_reconversion cells ok ∷ written w.db
      → v.rotation ≡ w.rotation
      → Effect w v
  synced :
      (v : World) (r : ImportRecord) (h : Bytes) (updated recorded : Bool)
      → is_empty h ≡ false
      → written v.db
        ≡ executed Sql.insert_preview_edit
            (number r.id
              ∷ text (codes "api-preview-updated")
              ∷ text r.output_hash
              ∷ text h
              ∷ int (pos 0)
              ∷ int (pos 0)
              ∷ int (pos 0)
              ∷ [])
            recorded
          ∷ executed Sql.update_output_hash (text h ∷ number r.id ∷ []) updated
          ∷ written w.db
      → v.rotation ≡ w.rotation
      → Effect w v
  turned :
      (v : World) (m : Manager) (now : ℕ) (i : Intent)
      → w.rotation ≡ some m
      → v.rotation ≡ some (queue now i m)
      → written v.db ≡ written w.db
      → Effect w v

-- A server that takes the statements: preparing them and binding their parameters succeeds.
pub record IsReady (sv : Server) : Type 0 where
  pub prepared : (t : Trace) (q : Sql) → sv.prepare t q ≡ true
  pub bound : (t : Trace) (q : Sql) (cells : List Cell) → sv.bind_param t q cells ≡ true

abbrev pub HasEffect : World → Result → Type 0
HasEffect w (o, v) = Effect w v

module _ (sv : Services) (ready : IsReady sv.server) (r : Request) (w : World) where
  statement_lem :
      (q : Sql) (cells : List Cell) (t : Trace)
      → statement sv.server q cells t
        ≡ (sv.server.execute t q cells, executed q cells (sv.server.execute t q cells) ∷ t)
  unfolding statement run
  statement_lem q cells t = rw (ready.prepared t q, ready.bound t q cells) refl

  written-statement :
      (q : Sql) (cells : List Cell) (t u : Trace)
      → is_read q ≡ false
      → written t ≡ u
      → written (statement sv.server q cells t).1
        ≡ executed q cells (sv.server.execute t q cells) ∷ u
  written-statement q cells t u h k = rw (statement_lem q cells t, h, k) refl

  reconvert_found-HasEffect :
      (s seq : Bytes) (o : Option ImportRecord) (t : Trace)
      → written t ≡ written w.db
      → HasEffect w (reconvert_found sv s seq o (on_db w t))
  unfolding reconvert_found insert_job insert_reconversion inserted
  reconvert_found-HasEffect s seq none t h = nothing (on_db w t) h refl
  reconvert_found-HasEffect s seq (some i) t h =
      let q = Sql.insert_reconversion in
      let cells = reconversion_cells show_int i.id (job_of s i) in
      queued_job _ cells (sv.server.execute t q cells)
        (written-statement q cells t (written w.db) refl h) refl

  sync_hash-HasEffect :
      (i : ImportRecord) (h : Bytes) (t : Trace)
      → is_empty h ≡ false
      → written t ≡ written w.db
      → HasEffect w (sync_hash sv i h (on_db w t))
  unfolding sync_hash update_output_hash record_preview_edit
  sync_hash-HasEffect i h t e k =
      let update = text h ∷ number i.id ∷ [] in
      let edit =
        number i.id
        ∷ text (codes "api-preview-updated")
        ∷ text i.output_hash
        ∷ text h
        ∷ int (pos 0)
        ∷ int (pos 0)
        ∷ int (pos 0)
        ∷ [] in
      let u = (statement sv.server Sql.update_output_hash update t).1 in
      synced _ i h (sv.server.execute t Sql.update_output_hash update)
        (sv.server.execute u Sql.insert_preview_edit edit) e
        (written-statement Sql.insert_preview_edit edit u _ refl
          (written-statement Sql.update_output_hash update t _ refl k))
        refl

  preview_found-HasEffect :
      (path : Bytes) (o : Option ImportRecord) (t : Trace)
      → written t ≡ written w.db
      → HasEffect w (preview_found sv path o (on_db w t))
  unfolding preview_found
  preview_found-HasEffect path none t h = nothing _ h refl
  preview_found-HasEffect path (some i) t h =
      if-Holds (HasEffect w) (is_empty (sv.sha256_file t path)) _ _ (λ _. nothing _ h refl)
        (λ e. sync_hash-HasEffect i (sv.sha256_file t path) t e h)

  preview_updated-HasEffect : HasEffect w (preview_updated sv r w)
  unfolding preview_updated
  preview_updated-HasEffect =
      if-Holds (HasEffect w) (is_empty (json_get (body r.text) (codes "output_path"))) _ _
        (λ _. nothing w refl refl)
        (λ _.
          preview_found-HasEffect _ _ _ (by_output_path-Reads sv.server sv.strtoll sv.atoi _ w.db))

  queue_rotation-HasEffect :
      (m : Manager) (o : ℤ) (client : Bytes) (found : Option ImportRecord) (t : Trace)
      → w.rotation ≡ some m
      → written t ≡ written w.db
      → HasEffect w (queue_rotation sv m o client found (on_db w t))
  unfolding queue_rotation
  queue_rotation-HasEffect m o client none t e h = nothing _ h refl
  queue_rotation-HasEffect m o client (some i) t e h = turned _ m _ _ e refl h

  turn-HasEffect :
      (m : Option Manager) (o : Option ℤ) → w.rotation ≡ m → HasEffect w (turn sv r m o w)
  unfolding turn
  turn-HasEffect none o e = nothing w refl refl
  turn-HasEffect (some m) none e = nothing w refl refl
  turn-HasEffect (some m) (some o) e =
      queue_rotation-HasEffect m o _ _ _ e
        (by_source_path-Reads sv.server sv.strtoll sv.atoi _ w.db)

  post-HasEffect : PostCases sv (HasEffect w) r w
  unfolding reconvert rotation_updated
  post-HasEffect = record {
    on_reconvert =
        reconvert_found-HasEffect _ _ _ _ (by_sequence-Reads sv.server sv.strtoll sv.atoi _ w.db);
    on_preview = preview_updated-HasEffect;
    on_rotation = turn-HasEffect w.rotation _ refl;
  }

  OnlyReads-HasEffect : (x : Result) → OnlyReads w x → HasEffect w x
  OnlyReads-HasEffect (o, v) (h, k) = nothing v h k

  get-HasEffect : GetCases sv (HasEffect w) r w
  get-HasEffect =
      let g = get-OnlyReads sv r w in
      record {
        answered = λ s. nothing w refl refl;
        on_ready = OnlyReads-HasEffect (Routes.ready sv w) g.on_ready;
        on_stats = OnlyReads-HasEffect (stats sv w) g.on_stats;
        on_list = OnlyReads-HasEffect (list sv r w) g.on_list;
        on_hash = OnlyReads-HasEffect (by_hash sv r w) g.on_hash;
        on_source = OnlyReads-HasEffect (by_source sv r w) g.on_source;
        on_sequence = OnlyReads-HasEffect (by_sequence sv r w) g.on_sequence;
      }

-- Every request, of whatever text, has one of the four effects, if the server takes the statements.
pub handle-HasEffect :
    (sv : Services) (req : Bytes) (w : World) → IsReady sv.server → HasEffect w (handle sv req w)
handle-HasEffect sv req w h =
    handle-Holds sv (HasEffect w) req w (λ s. nothing w refl refl)
      (λ q _ _. route-Holds sv (HasEffect w) q w (get-HasEffect sv h q w) (post-HasEffect sv h q w))
