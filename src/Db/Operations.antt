-- ===== src/Db/Operations.antt =====
-- The other statements of src/db.cpp: reading, inserting and updating imports, reconversions,
-- preview edits and alerts.
use autodngconverter.Base.{
  ℕ, Bool, true, false, Option, none, some, List, [], ◌∷◌, ◌++◌, Bytes, codes, is_empty, ℤ,
  if◌then◌else◌,
}
use autodngconverter.Pipeline.Types.{
  ConversionSettings, ImportRecord, ImportStatus, ReconversionJob, status_text,
}
use autodngconverter.Db.Server.{
  Sql, Cell, text, number, int, null, Server, Db, query, statement, exec_select,
}
use autodngconverter.Db.Rows.{row_to_record, vec_to_record}

-- An empty date or time is bound as NULL.
unfoldable pub nullable : Bytes → Cell
nullable s = if is_empty s then null else text s

unfoldable pub import_cells : ImportRecord → List Cell
unfolding nullable
import_cells r =
    number r.sequence_id
    ∷ text r.source_path
    ∷ text r.source_hash
    ∷ text r.output_path
    ∷ text r.output_hash
    ∷ text r.camera_model
    ∷ nullable r.capture_date
    ∷ nullable r.capture_time
    ∷ text r.folder_schema
    ∷ text r.conversion_settings
    ∷ text (status_text r.status)
    ∷ int r.orientation
    ∷ []

-- The `conversion_settings` of a reconversion; `show` is `std::to_string` of an `int`.
unfoldable pub settings_json : (ℤ → Bytes) → ConversionSettings → Bytes
settings_json show s =
    codes "{\"compression\":\""
    ++ s.compression
    ++ codes "\",\"preview_medium\":\""
    ++ s.preview_medium
    ++ codes "\",\"preview_full\":\""
    ++ s.preview_full
    ++ codes "\",\"version\":\""
    ++ s.version
    ++ codes "\",\"jpeg_quality\":"
    ++ show s.jpeg_quality
    ++ codes ",\"linear\":"
    ++ (if s.linear then codes "true" else codes "false")
    ++ codes "}"

unfoldable pub reconversion_cells : (ℤ → Bytes) → ℕ → ReconversionJob → List Cell
unfolding settings_json
reconversion_cells show import_id job =
    number import_id
    ∷ text job.previous_output_hash
    ∷ text (settings_json show job.settings)
    ∷ text job.reason
    ∷ []

module _ (sv : Server) where
  -- The number of the inserted row, and 0 for a failure.
  unfoldable pub inserted : Sql → List Cell → Db ℕ
  unfolding statement
  inserted q cells t = let (ok, u) = statement sv q cells t in (if ok then sv.insert_id u else 0, u)

  unfoldable pub insert_import : ImportRecord → Db ℕ
  unfolding inserted import_cells
  insert_import r = inserted Sql.insert_import (import_cells r)

  unfoldable pub insert_reconversion : (ℤ → Bytes) → ℕ → ReconversionJob → Db ℕ
  unfolding inserted
  insert_reconversion show import_id job =
      inserted Sql.insert_reconversion (reconversion_cells show import_id job)

  unfoldable pub update_reconversion : ℕ → Bytes → ImportStatus → Db Bool
  unfolding statement
  update_reconversion id new_hash status =
      statement sv Sql.update_reconversion
        (text new_hash ∷ text (status_text status) ∷ number id ∷ [])

  unfoldable pub update_output_hash : ℕ → Bytes → Db Bool
  unfolding statement
  update_output_hash id new_hash =
      statement sv Sql.update_output_hash (text new_hash ∷ number id ∷ [])

  unfoldable pub update_orientation : (ℤ → Bytes) → ℕ → ℤ → Db Bool
  unfolding query
  update_orientation show id orientation = query sv (Sql.update_orientation (show orientation) id)

  unfoldable pub record_preview_edit : ℕ → Bytes → Bytes → Bytes → ℤ → ℤ → ℤ → Db Bool
  unfolding statement
  record_preview_edit import_id worker prev_hash new_hash width height quality =
      statement sv Sql.insert_preview_edit (
        number import_id
        ∷ text worker
        ∷ text prev_hash
        ∷ text new_hash
        ∷ int width
        ∷ int height
        ∷ int quality
        ∷ [])

  unfoldable pub insert_alert : Bytes → Bytes → Bytes → Bytes → Db Bool
  unfolding statement
  insert_alert severity category message ref_sequence t =
      if sv.connected
      then statement sv Sql.insert_alert
          (text severity ∷ text category ∷ text message ∷ text ref_sequence ∷ []) t
      else (false, t)

  unfoldable pub has_output_hash : Bytes → Db Bool
  unfolding exec_select
  has_output_hash hash t =
      let (rows, u) = exec_select sv Sql.select_output_hash (hash ∷ []) t in (has_row rows, u)
    where
      has_row : List (List Bytes) → Bool
      has_row [] = false
      has_row (row ∷ rows) = true

  module _ (strtoll : Bytes → ℕ) (atoi : Bytes → ℤ) where
    unfoldable pub first_record : List (List Bytes) → Option ImportRecord
    first_record [] = none
    first_record (row ∷ rows) = some (vec_to_record strtoll atoi row)

    unfoldable pub get_import : Sql → List Bytes → Db (Option ImportRecord)
    unfolding exec_select first_record
    get_import q params t = let (rows, u) = exec_select sv q params t in (first_record rows, u)

    unfoldable pub get_import_by_sequence : Bytes → Db (Option ImportRecord)
    unfolding get_import
    get_import_by_sequence seq = get_import Sql.select_by_sequence (seq ∷ [])

    unfoldable pub get_import_by_hash : Bytes → Db (Option ImportRecord)
    unfolding get_import
    get_import_by_hash sha = get_import Sql.select_by_hash (sha ∷ sha ∷ [])

    unfoldable pub get_import_by_source_path : Bytes → Db (Option ImportRecord)
    unfolding get_import
    get_import_by_source_path path = get_import Sql.select_by_source_path (path ∷ [])

    unfoldable pub get_import_by_output_path : Bytes → Db (Option ImportRecord)
    unfolding get_import
    get_import_by_output_path path = get_import Sql.select_by_output_path (path ∷ [])

    unfoldable pub stored_record : Option (List (Option Bytes)) → Option ImportRecord
    stored_record none = none
    stored_record (some row) = some (row_to_record strtoll atoi row)

    unfoldable pub get_import_by_id : ℕ → Db (Option ImportRecord)
    unfolding query stored_record
    get_import_by_id id t =
        let (ok, u) = query sv (Sql.select_by_id id) t in
        (if ok then stored_record (sv.row u) else none, u)
