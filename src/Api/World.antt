-- ===== src/Api/World.antt =====
-- What `handle` of src/api.cpp works on: its answers, the state it reaches, the parameters of a request
-- and the texts of the answers. An answer `none` is an exception that nothing catches.
use autodngconverter.Base.{
  ℕ, Bool, true, false, Option, none, some, List, [], ◌∷◌, ◌++◌, Bytes, codes, bytes_eq_instance,
  lookup, is_empty, ℤ, pos, pos_part, ltb_ℤ, stoi, show_int, to_string, if◌then◌else◌,
}
use autodngconverter.Pipeline.Types.{ImportRecord, ImportStatus, default_settings, ReconversionJob}
use autodngconverter.Metrics.{Metrics}
use autodngconverter.Rotation.{Manager}
use autodngconverter.Db.Server.{Trace, Server}
use autodngconverter.Db.Listing.{Stats}
use autodngconverter.Api.Json.{record_to_json, json_get}
use autodngconverter.Api.Request.{Request, find_text}

pub record Response : Type 0 where
  pub code : ℕ
  pub body : Bytes
  pub content_type : Bytes

-- The calls of the store, and the rotation manager, if there is one.
pub record World : Type 0 where
  pub db : Trace
  pub rotation : Option Manager

-- The parts that the handler uses: the store, the digest of a file, a clock in milliseconds, the
-- metrics with the printing of their sums, and the token of the configuration.
pub record Services : Type 0 where
  pub server : Server
  pub strtoll : Bytes → ℕ
  pub atoi : Bytes → ℤ
  pub sha256_file : Trace → Bytes → Bytes
  pub now : Trace → ℕ
  pub metrics : Metrics
  pub show_sum : List ℕ → Bytes
  pub api_token : Bytes

abbrev pub json : ℕ → Bytes → Response
json code text = record { code = code; body = text; content_type = codes "application/json" }

abbrev pub answer : ℕ → Bytes → World → Option Response × World
answer code text w = (some (json code text), w)

abbrev pub on_db : World → Trace → World
on_db w t = record { db = t; rotation = w.rotation }

-- `q.count(key) ? std::stoi(q[key]) : def`
unfoldable pub int_param : Request → Bytes → ℤ → Option ℤ
int_param r key def = elim (lookup key r.query) [ none ↦ some def | some v ↦ stoi v ]

unfoldable pub text_param : Request → Bytes → Bytes
text_param r key = elim (lookup key r.query) [ none ↦ [] | some v ↦ v ]

unfoldable pub at_least_one : ℤ → ℕ → ℕ
at_least_one n def = if ltb_ℤ n (pos 1) then def else pos_part n

unfoldable pub stats_text : Stats → Bytes
stats_text s =
    codes "{\"total\":"
    ++ to_string s.total
    ++ codes ",\"completed\":"
    ++ to_string s.completed
    ++ codes ",\"failed\":"
    ++ to_string s.failed
    ++ codes ",\"queue_depth\":"
    ++ to_string s.queue_depth
    ++ codes "}"

-- The records with commas between them.
unfoldable pub records_text : List ImportRecord → Bytes
records_text [] = []
records_text (r ∷ []) = record_to_json show_int r
records_text (r ∷ s ∷ rs) = record_to_json show_int r ++ codes "," ++ records_text (s ∷ rs)

unfoldable pub list_text : Stats → ℕ → ℕ → List ImportRecord → Bytes
list_text s page limit rows =
    codes "{\"total\":"
    ++ to_string s.total
    ++ codes ",\"page\":"
    ++ to_string page
    ++ codes ",\"limit\":"
    ++ to_string limit
    ++ codes ",\"data\":["
    ++ records_text rows
    ++ codes "]}"

unfoldable pub show_found : Option ImportRecord → World → Option Response × World
show_found none w = answer 404 (codes "{\"error\":\"not-found\"}") w
show_found (some r) w = answer 200 (record_to_json show_int r) w

abbrev pub imports : Bytes
imports = codes "/api/v1/imports/"

abbrev pub imports_hash : Bytes
imports_hash = codes "/api/v1/imports/hash/"

unfoldable pub contains_text : Bytes → Bytes → Bool
contains_text pat s = elim (find_text pat s) [ none ↦ false | some i ↦ true ]

unfoldable pub job_of : Bytes → ImportRecord → ReconversionJob
job_of text r =
    let compression = json_get text (codes "compression") in
    record {
      id = 0;
      import_id = r.id;
      previous_output_hash = r.output_hash;
      new_output_hash = [];
      settings = record default_settings {
        compression = if is_empty compression then codes "lossless" else compression;
      };
      reason = json_get text (codes "reason");
      triggered_at = [];
      completed_at = [];
      status = ImportStatus.pending;
      error_message = [];
    }

-- The orientation of the request, 1 if there is none.
unfoldable pub orientation_of : Bytes → Option ℤ
orientation_of [] = some (pos 1)
orientation_of (c ∷ s) = stoi (c ∷ s)
