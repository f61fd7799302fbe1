-- ===== src/Db/Tests.antt =====
-- Tests of src/db.cpp, and the theorems at a server that keeps its table of locks in its history.
use autodngconverter.Base.{
  ℕ, ◌≡◌, refl, true, false, Option, none, some, [], ◌∷◌, Bytes, codes, bytes_eq, ℤ, pos, ◌==◌,
  if◌then◌else◌, ==_iff, to_string, value_of, isdigit, map, pos_part,
}
use autodngconverter.Pipeline.Types.{ImportRecord, empty_record, failed, exif}
use autodngconverter.Db.Server.{Sql, text, number, asked, executed, Trace, Server, query, run}
use autodngconverter.Db.Sequence.{
  allocate_sequence, transact, insert, rename, finish, abandon, in_transaction,
  allocate_sequence-closes, IsAllocated, allocate_sequence-IsAllocated,
}
use autodngconverter.Db.Lock.{acquire_lock}
use autodngconverter.Db.Rows.{or_empty, row_to_record, vec_to_record}
use autodngconverter.Db.Rows.RoundTrip.{columns, vec_to_record-columns, row_to_record-vec_to_record}
use autodngconverter.Db.Lock.Exclusion.{LockTable, acquire_lock-Excludes}

-- The row of the table of locks for an import after the calls.
abbrev stored : Trace → ℕ → Option (Bytes × ℕ)
stored [] id = none
stored (executed Sql.upsert_lock (number j ∷ text w ∷ number e ∷ cells) true ∷ t) id =
    let before = stored t id in if j == id then some (w, e) else before
stored (asked (Sql.delete_lock j) true ∷ t) id =
    let before = stored t id in if j == id then none else before
stored (c ∷ t) id = stored t id

abbrev fetched_lock : Trace → Option (Bytes × ℕ)
fetched_lock (executed Sql.select_lock (number id ∷ []) true ∷ t) = stored t id
fetched_lock t = none

abbrev server : Server
server = record {
  connected = true;
  prepare = λ t q. true;
  bind_param = λ t q cells. true;
  bind_result = λ t q. true;
  execute = λ t q cells. true;
  store_result = λ t. true;
  insert_id = λ t. 7;
  fetch = λ t. [];
  query = λ t q. true;
  row = λ t. none;
  lock_row = fetched_lock;
  now = λ t. 100;
  ping = λ t. true;
  random_token = λ t. codes "0123456789abcdef";
  secure_random_token = λ t. codes "0123456789abcdef";
}

same : (id : ℕ) → (id == id) ≡ true
same id = (==_iff id id).1 refl

abbrev locks : LockTable server
locks = record {
  view = stored;
  upserted = λ id w e t. rw (same id) refl;
  deleted = λ id t. rw (same id) refl;
  ticked = λ id n t. refl;
  selected = λ id j ok t. refl;
  found = λ id t. refl;
}

allocated : (allocate_sequence server []).0 ≡ (7, codes "IMG_7")
unfolding allocate_sequence transact insert rename finish abandon query run to_string
allocated = refl

allocate_sequence-closes_example : in_transaction (allocate_sequence server []).1 ≡ false
allocate_sequence-closes_example = allocate_sequence-closes server [] (λ u. refl) refl

allocate_sequence-IsAllocated_example : IsAllocated server (allocate_sequence server [])
allocate_sequence-IsAllocated_example = allocate_sequence-IsAllocated server []

abbrev held : Trace
held =
    executed Sql.upsert_lock
      (number 5 ∷ text (codes "other") ∷ number 160 ∷ text (codes "other") ∷ number 160 ∷ []) true
    ∷ []

acquire_lock-Excludes_example :
    ((acquire_lock server 5 (codes "me") 60 held).0 ≡ false)
    × (locks.view (acquire_lock server 5 (codes "me") 60 held).1 5 ≡ some (codes "other", 160))
unfolding bytes_eq
acquire_lock-Excludes_example =
    acquire_lock-Excludes server locks 5 (codes "me") 60 (codes "other") 160 held refl refl refl
      (λ u. refl)

abbrev strtoll : Bytes → ℕ
strtoll s = value_of 0 s

abbrev atoi : Bytes → ℤ
atoi s = pos (value_of 0 s)

abbrev show : ℤ → Bytes
show n = to_string (pos_part n)

abbrev photo : ImportRecord
photo = record empty_record {
  id = 12;
  sequence_id = 7;
  source_path = codes "/watch/a.nef";
  status = failed;
  orientation = pos 6;
  error_message = codes "x";
}

vec_to_record-columns_example :
    vec_to_record strtoll atoi (columns show photo)
    ≡ record photo { date_source = exif; error_message = [] }
unfolding to_string value_of isdigit
vec_to_record-columns_example = vec_to_record-columns strtoll atoi show photo refl refl refl

row_to_record-vec_to_record_example :
    row_to_record strtoll atoi (some (codes "12") ∷ none ∷ [])
    ≡ vec_to_record strtoll atoi (map or_empty (some (codes "12") ∷ none ∷ []))
unfolding value_of
row_to_record-vec_to_record_example =
    row_to_record-vec_to_record strtoll atoi (some (codes "12") ∷ none ∷ []) refl refl
