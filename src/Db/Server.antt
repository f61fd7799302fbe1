-- ===== src/Db/Server.antt =====
-- The connection of src/db.cpp to the MariaDB server, which answers by the history of the calls,
-- newest call first. A statement is named by what it does, and `sql_text` gives its text.
use autodngconverter.Base.{
  ℕ, Bool, false, Option, none, some, List, [], ◌∷◌, ◌++◌, Bytes, codes, ℤ, to_string,
  if◌then◌else◌,
}

pub data Sql : Type 0 where
  delete_empty_names delete_tmp_names start_transaction commit rollback : Sql
  insert_sequence update_sequence insert_import : Sql
  select_by_sequence select_by_hash select_by_source_path select_by_output_path : Sql
  select_by_id : ℕ → Sql
  update_output_hash insert_preview_edit insert_reconversion update_reconversion : Sql
  update_orientation : Bytes → ℕ → Sql
  select_lock upsert_lock select_output_hash insert_alert : Sql
  delete_lock : ℕ → Sql
  count_imports count_completed count_failed : Sql
  -- The two filters, the limit and the offset.
  list_imports : Bool → Bool → Bytes → Bytes → Sql
  create_schema_migrations select_migration insert_migration : Sql
  -- A statement of a migration file.
  migration : Bytes → Sql

abbrev record_columns : Bytes
record_columns =
    codes
      "id, sequence_id, source_path, source_hash, output_path, output_hash, camera_model, capture_date, capture_time, folder_schema, conversion_settings, status, orientation, created_at, completed_at, (SELECT name FROM sequences WHERE id=sequence_id) FROM imports "

unfoldable pub sql_text : Sql → Bytes
sql_text delete_empty_names = codes "DELETE FROM sequences WHERE name = ''"
sql_text delete_tmp_names = codes "DELETE FROM sequences WHERE name LIKE 'TMP_%'"
sql_text start_transaction = codes "START TRANSACTION"
sql_text commit = codes "COMMIT"
sql_text rollback = codes "ROLLBACK"
sql_text insert_sequence = codes "INSERT INTO sequences(name) VALUES(?)"
sql_text update_sequence = codes "UPDATE sequences SET name=? WHERE id=?"
sql_text insert_import =
    codes
      "INSERT INTO imports (sequence_id, source_path, source_hash, output_path, output_hash, camera_model, capture_date, capture_time, folder_schema, conversion_settings, status, orientation, created_at, completed_at) VALUES (?, ?, ?, ?, ?, ?, ?, ?, ?, ?, ?, ?, NOW(), NOW())"
sql_text select_by_sequence =
    codes
      "SELECT i.id, i.sequence_id, i.source_path, i.source_hash, i.output_path, i.output_hash, i.camera_model, i.capture_date, i.capture_time, i.folder_schema, i.conversion_settings, i.status, i.orientation, i.created_at, i.completed_at, s.name FROM imports i JOIN sequences s ON i.sequence_id=s.id WHERE s.name=?"
sql_text select_by_hash =
    codes "SELECT " ++ record_columns ++ codes "WHERE source_hash=? OR output_hash=? LIMIT 1"
sql_text select_by_source_path =
    codes "SELECT " ++ record_columns ++ codes "WHERE source_path=? LIMIT 1"
sql_text select_by_output_path =
    codes "SELECT " ++ record_columns ++ codes "WHERE output_path=? LIMIT 1"
sql_text (select_by_id id) =
    codes "SELECT " ++ record_columns ++ codes "WHERE id=" ++ to_string id ++ codes " LIMIT 1"
sql_text update_output_hash = codes "UPDATE imports SET output_hash=? WHERE id=?"
sql_text insert_preview_edit =
    codes
      "INSERT INTO preview_edits (import_id, worker, previous_output_hash, new_output_hash, preview_width, preview_height, preview_quality, edited_at) VALUES (?, ?, ?, ?, ?, ?, ?, NOW())"
sql_text insert_reconversion =
    codes
      "INSERT INTO reconversions (import_id, previous_output_hash, conversion_settings, reason, status, triggered_at) VALUES (?, ?, ?, ?, 'pending', NOW())"
sql_text update_reconversion =
    codes "UPDATE reconversions SET new_output_hash=?, status=?, completed_at=NOW() WHERE id=?"
sql_text (update_orientation orientation id) =
    codes "UPDATE imports SET orientation=" ++ orientation ++ codes " WHERE id=" ++ to_string id
sql_text select_lock = codes "SELECT worker_id, expires_at FROM processing_locks WHERE import_id=?"
sql_text upsert_lock =
    codes
      "INSERT INTO processing_locks (import_id, worker_id, expires_at) VALUES (?, ?, ?) ON DUPLICATE KEY UPDATE worker_id=?, expires_at=?"
sql_text select_output_hash = codes "SELECT 1 FROM imports WHERE output_hash=? LIMIT 1"
sql_text insert_alert =
    codes "INSERT INTO alerts (severity, category, message, ref_sequence) VALUES (?, ?, ?, ?)"
sql_text (delete_lock id) = codes "DELETE FROM processing_locks WHERE import_id=" ++ to_string id
sql_text count_imports = codes "SELECT COUNT(*) FROM imports"
sql_text count_completed = codes "SELECT COUNT(*) FROM imports WHERE status='completed'"
sql_text count_failed = codes "SELECT COUNT(*) FROM imports WHERE status='failed'"
sql_text (list_imports status camera limit offset) =
    codes "SELECT "
    ++ record_columns
    ++ codes "WHERE 1=1"
    ++ (if status then codes " AND status=?" else [])
    ++ (if camera then codes " AND camera_model=?" else [])
    ++ codes " ORDER BY id DESC LIMIT "
    ++ limit
    ++ codes " OFFSET "
    ++ offset
sql_text create_schema_migrations =
    codes
      "CREATE TABLE IF NOT EXISTS schema_migrations (version VARCHAR(255) PRIMARY KEY, applied_at TIMESTAMP DEFAULT CURRENT_TIMESTAMP)"
sql_text select_migration = codes "SELECT 1 FROM schema_migrations WHERE version=?"
sql_text insert_migration = codes "INSERT INTO schema_migrations(version) VALUES(?)"
sql_text (migration stmt) = stmt

-- A bound parameter.
pub data Cell : Type 0 where
  text : Bytes → Cell
  number : ℕ → Cell
  int : ℤ → Cell
  null : Cell

-- `mysql_query` with its success, the execution of a prepared statement, a reading of the clock, and
-- `mysql_ping` with its success.
pub data Call : Type 0 where
  asked : Sql → Bool → Call
  executed : Sql → List Cell → Bool → Call
  clock : ℕ → Call
  pinged : Bool → Call

abbrev pub Trace : Type 0
Trace = List Call

-- `connected` is whether there is a connection; `fetch` gives the rows of the statement that was executed last, `none` for a fetch that reports an
-- error or a truncation; `row` is that of `mysql_query`, with its NULLs; `lock_row` is the fetch of
-- the two columns of a lock.
pub record Server : Type 0 where
  pub connected : Bool
  pub prepare : Trace → Sql → Bool
  pub bind_param : Trace → Sql → List Cell → Bool
  pub bind_result : Trace → Sql → Bool
  pub execute : Trace → Sql → List Cell → Bool
  pub store_result : Trace → Bool
  pub insert_id : Trace → ℕ
  pub fetch : Trace → List (Option (List Bytes))
  pub query : Trace → Sql → Bool
  pub row : Trace → Option (List (Option Bytes))
  pub lock_row : Trace → Option (Bytes × ℕ)
  pub now : Trace → ℕ
  pub ping : Trace → Bool
  pub random_token : Trace → Bytes
  pub secure_random_token : Trace → Bytes

abbrev pub Db : Type 0 → Type 0
Db A = Trace → A × Trace

module _ (sv : Server) where
  unfoldable pub query : Sql → Db Bool
  query q t = let ok = sv.query t q in (ok, asked q ok ∷ t)

  -- `bind_param` and then `execute`, which is not called if the first fails.
  unfoldable pub run : Sql → List Cell → Db Bool
  run q cells t =
      if sv.bind_param t q cells
      then (sv.execute t q cells, executed q cells (sv.execute t q cells) ∷ t)
      else (false, t)

  -- A whole statement without a result: preparation, parameters, execution.
  unfoldable pub statement : Sql → List Cell → Db Bool
  unfolding run
  statement q cells t = if sv.prepare t q then run q cells t else (false, t)

-- The rows in front of the first failed fetch.
unfoldable pub fetched : List (Option (List Bytes)) → List (List Bytes)
fetched [] = []
fetched (none ∷ rows) = []
fetched (some row ∷ rows) = row ∷ fetched rows

abbrev texts : List Bytes → List Cell
texts [] = []
texts (s ∷ ss) = text s ∷ texts ss

-- `exec_select`, for a statement that has columns and at least one parameter.
unfoldable pub exec_select : Server → Sql → List Bytes → Db (List (List Bytes))
unfolding statement run fetched
exec_select sv q params t =
    let (ok, u) = statement sv q (texts params) t in
    (if ok then (if sv.bind_result u q then fetched (sv.fetch u) else []) else [], u)
