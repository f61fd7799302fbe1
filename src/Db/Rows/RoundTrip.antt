-- ===== src/Db/Rows/RoundTrip.antt =====
-- The two decoders of src/db.cpp agree, and they read back what the columns of a record hold.
use autodngconverter.Base.{
  ℕ, zero, suc, ◌≡◌, refl, Option, none, some, List, [], ◌∷◌, Bytes, bytes_eq, ℤ, pos, map,
  to_string,
}
use autodngconverter.Pipeline.Types.{
  ImportRecord, empty_record, ImportStatus, status_text, pending, converting, completed, failed,
  restored, legacy,
}
use autodngconverter.Db.Rows.{
  status_of, column, or_empty, cell, row_to_record, vec_to_record, number_column, int_column,
  number_or_zero, int_or_zero,
}

status_of-status_text : (st : ImportStatus) → status_of (status_text st) ≡ st
unfolding status_of status_text bytes_eq
status_of-status_text pending = refl
status_of-status_text converting = refl
status_of-status_text completed = refl
status_of-status_text failed = refl
status_of-status_text restored = refl
status_of-status_text legacy = refl

-- The columns of a record in the order of the statements.
abbrev pub columns : (ℤ → Bytes) → ImportRecord → List Bytes
columns show r =
    to_string r.id
    ∷ to_string r.sequence_id
    ∷ r.source_path
    ∷ r.source_hash
    ∷ r.output_path
    ∷ r.output_hash
    ∷ r.camera_model
    ∷ r.capture_date
    ∷ r.capture_time
    ∷ r.folder_schema
    ∷ r.conversion_settings
    ∷ status_text r.status
    ∷ show r.orientation
    ∷ r.created_at
    ∷ r.completed_at
    ∷ r.sequence_name
    ∷ []

-- A record is read back from its columns, apart from the two fields that no column holds, if the C
-- library reads its three numbers as the server prints them.
pub vec_to_record-columns :
    (strtoll : Bytes → ℕ) (atoi : Bytes → ℤ) (show : ℤ → Bytes) (r : ImportRecord)
    → strtoll (to_string r.id) ≡ r.id
    → strtoll (to_string r.sequence_id) ≡ r.sequence_id
    → atoi (show r.orientation) ≡ r.orientation
    → vec_to_record strtoll atoi (columns show r) ≡ record r {
      date_source = empty_record.date_source;
      error_message = empty_record.error_message;
    }
unfolding vec_to_record column number_column int_column
vec_to_record-columns strtoll atoi show r h h' k =
    rw (h, h', k, status_of-status_text r.status) refl

column-map :
    (i : ℕ) (row : List (Option Bytes)) → column i (map or_empty row) ≡ or_empty (cell i row)
unfolding column cell
column-map i [] = refl
column-map zero (s ∷ ss) = refl
column-map (suc i) (s ∷ ss) = column-map i ss

module _ (strtoll : Bytes → ℕ) (atoi : Bytes → ℤ) (h : strtoll [] ≡ 0) (k : atoi [] ≡ pos 0) where
  number_column-map :
      (i : ℕ) (row : List (Option Bytes))
      → number_column strtoll atoi i (map or_empty row) ≡ number_or_zero strtoll atoi (cell i row)
  unfolding number_column cell
  number_column-map i [] = refl
  number_column-map zero (none ∷ ss) = h
  number_column-map zero (some s ∷ ss) = refl
  number_column-map (suc i) (s ∷ ss) = number_column-map i ss

  int_column-map :
      (i : ℕ) (row : List (Option Bytes))
      → int_column strtoll atoi i (map or_empty row) ≡ int_or_zero strtoll atoi (cell i row)
  unfolding int_column cell
  int_column-map i [] = refl
  int_column-map zero (none ∷ ss) = k
  int_column-map zero (some s ∷ ss) = refl
  int_column-map (suc i) (s ∷ ss) = int_column-map i ss

-- The two decoders agree on every row, with NULL read as an empty text, if the C library reads 0 from
-- an empty text.
pub row_to_record-vec_to_record :
    (strtoll : Bytes → ℕ) (atoi : Bytes → ℤ) (row : List (Option Bytes))
    → strtoll [] ≡ 0
    → atoi [] ≡ pos 0
    → row_to_record strtoll atoi row ≡ vec_to_record strtoll atoi (map or_empty row)
unfolding row_to_record vec_to_record
row_to_record-vec_to_record strtoll atoi row h k =
    simp (column-map, number_column-map strtoll atoi h k, int_column-map strtoll atoi h k)
