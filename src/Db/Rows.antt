-- ===== src/Db/Rows.antt =====
-- How src/db.cpp decodes a row of imports. `strtoll` and `atoi` are those of the C library.
pub mod RoundTrip
use autodngconverter.Base.{
  ℕ, zero, suc, Bool, true, false, Option, none, some, List, [], ◌∷◌, Bytes, codes, bytes_eq, ℤ,
  pos, if◌then◌else◌,
}
use autodngconverter.Pipeline.Types.{
  ImportRecord, empty_record, ImportStatus, pending, converting, completed, failed, restored,
  legacy,
}

-- A text that is no status is decoded as completed.
unfoldable pub status_of : Bytes → ImportStatus
unfolding bytes_eq
status_of st =
    if bytes_eq st (codes "pending")
    then pending
    else if bytes_eq st (codes "converting")
    then converting
    else if bytes_eq st (codes "failed")
    then failed
    else if bytes_eq st (codes "restored")
    then restored
    else if bytes_eq st (codes "legacy")
    then legacy
    else completed

-- The column with the number, empty for a row that is too short or, in the second form, for NULL.
unfoldable pub column : ℕ → List Bytes → Bytes
column i [] = []
column zero (s ∷ ss) = s
column (suc i) (s ∷ ss) = column i ss

abbrev pub or_empty : Option Bytes → Bytes
or_empty none = []
or_empty (some s) = s

unfoldable pub cell : ℕ → List (Option Bytes) → Option Bytes
cell i [] = none
cell zero (s ∷ ss) = s
cell (suc i) (s ∷ ss) = cell i ss

module _ (strtoll : Bytes → ℕ) (atoi : Bytes → ℤ) where
  abbrev pub number_or_zero : Option Bytes → ℕ
  number_or_zero none = 0
  number_or_zero (some s) = strtoll s

  abbrev pub int_or_zero : Option Bytes → ℤ
  int_or_zero none = pos 0
  int_or_zero (some s) = atoi s

  unfoldable pub row_to_record : List (Option Bytes) → ImportRecord
  unfolding cell
  row_to_record row = record empty_record {
    id = number_or_zero (cell 0 row);
    sequence_id = number_or_zero (cell 1 row);
    source_path = or_empty (cell 2 row);
    source_hash = or_empty (cell 3 row);
    output_path = or_empty (cell 4 row);
    output_hash = or_empty (cell 5 row);
    camera_model = or_empty (cell 6 row);
    capture_date = or_empty (cell 7 row);
    capture_time = or_empty (cell 8 row);
    folder_schema = or_empty (cell 9 row);
    conversion_settings = or_empty (cell 10 row);
    status = status_of (or_empty (cell 11 row));
    orientation = int_or_zero (cell 12 row);
    created_at = or_empty (cell 13 row);
    completed_at = or_empty (cell 14 row);
    sequence_name = or_empty (cell 15 row);
  }

  -- A number is read from its column where the row is long enough, and is 0 elsewhere.
  unfoldable pub number_column : ℕ → List Bytes → ℕ
  number_column i [] = 0
  number_column zero (s ∷ ss) = strtoll s
  number_column (suc i) (s ∷ ss) = number_column i ss

  unfoldable pub int_column : ℕ → List Bytes → ℤ
  int_column i [] = pos 0
  int_column zero (s ∷ ss) = atoi s
  int_column (suc i) (s ∷ ss) = int_column i ss

  unfoldable pub vec_to_record : List Bytes → ImportRecord
  unfolding column number_column int_column
  vec_to_record v = record empty_record {
    id = number_column 0 v;
    sequence_id = number_column 1 v;
    source_path = column 2 v;
    source_hash = column 3 v;
    output_path = column 4 v;
    output_hash = column 5 v;
    camera_model = column 6 v;
    capture_date = column 7 v;
    capture_time = column 8 v;
    folder_schema = column 9 v;
    conversion_settings = column 10 v;
    status = status_of (column 11 v);
    orientation = int_column 12 v;
    created_at = column 13 v;
    completed_at = column 14 v;
    sequence_name = column 15 v;
  }
