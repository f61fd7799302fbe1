-- ===== src/Db/Listing/Tests.antt =====
-- Tests of `ListImports` and `GetStats` of src/db.cpp, at a server that answers from a list of rows.
use autodngconverter.Base.{
  arith, ◌-◌, ◌*◌, ◌^◌, ◌≡◌, refl, true, false, Option, none, some, List, [], ◌∷◌, map, Bytes,
  codes, pos, negsuc, take, drop, value_of, value_of-to_string,
}
use autodngconverter.Db.Server.{Sql, executed, Trace, Server}
use autodngconverter.Db.Rows.{vec_to_record}
use autodngconverter.Db.Listing.{wrap_int}
use autodngconverter.Db.Listing.Pages.{ImportsTable, pages, pages_lem}

abbrev imports : List (List Bytes)
imports = (codes "3" ∷ []) ∷ (codes "2" ∷ []) ∷ (codes "1" ∷ []) ∷ []

abbrev rows : Trace → List (Option (List Bytes))
rows (executed (Sql.list_imports false false limit offset) [] true ∷ t) =
    map some (take (value_of 0 limit) (drop (value_of 0 offset) imports))
rows t = []

abbrev server : Server
server = record {
  connected = true;
  prepare = λ t q. true;
  bind_param = λ t q cells. true;
  bind_result = λ t q. true;
  execute = λ t q cells. true;
  store_result = λ t. true;
  insert_id = λ t. 7;
  fetch = rows;
  query = λ t q. true;
  row = λ t. none;
  lock_row = λ t. none;
  now = λ t. 100;
  ping = λ t. true;
  random_token = λ t. [];
  secure_random_token = λ t. [];
}

-- The offset of page 3 with the largest limit is no `int` any more.
overflow : wrap_int (2 * (2 ^ 31 - 1)) ≡ negsuc 1
unfolding wrap_int
overflow = refl

abbrev table : ImportsTable server
table = record {
  all = imports;
  prepared = λ t q. refl;
  executes = λ t q. refl;
  results = λ t q. refl;
  found = λ t limit offset. rw (value_of-to_string limit, value_of-to_string offset) refl;
}

-- Two pages of two imports show the three that there are.
pages_lem_example :
    pages server table (λ s. value_of 0 s) (λ s. pos (value_of 0 s)) 2 (λ k. []) 2
    ≡ map (vec_to_record (λ s. value_of 0 s) (λ s. pos (value_of 0 s))) imports
pages_lem_example =
    pages_lem server table (λ s. value_of 0 s) (λ s. pos (value_of 0 s)) 2 (λ k. []) 2 (omega arith)
