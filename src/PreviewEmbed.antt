-- ===== src/PreviewEmbed.antt =====
-- src/tools/dng_previewembed.cpp, the tool that puts a JPEG preview into a DNG file. The file system is
-- a map from paths to contents; what fails and what a write leaves in a file are parameters.
pub mod Segment
pub mod Splice
pub mod Twice
pub mod Run
mod Tests
use autodngconverter.Base.{
  ℕ, zero, suc, ◌+◌, Bool, true, false, not, ◌&&◌, ◌||◌, Option, none, some, List, [], ◌∷◌, ◌++◌,
  Bytes, codes, Map, lookup, insert, contains, bytes_eq_instance, length, take, drop, ltb, ◌==◌,
  is_empty, ℤ, stoi, show_int, to_string, if◌then◌else◌,
}
use autodngconverter.Pipeline.Thumbnail.{end_marker}

-- The first segment from position `i` on: its start and its length, up to the end marker or to the end
-- of the data; (0, 0) is no segment.
unfoldable pub find_jpeg : ℕ → Bytes → ℕ × ℕ
find_jpeg i [] = (0, 0)
find_jpeg i (b ∷ []) = (0, 0)
find_jpeg i (b ∷ c ∷ s) = elim (b == 255 && c == 216) [
  | false ↦ find_jpeg (i + 1) (c ∷ s)
  | true ↦ elim (end_marker s) [ none ↦ (i, 2 + length s) | some n ↦ (i, 2 + n) ]
]

-- The bytes that are written: the segment replaced, or the picture at the end.
unfoldable pub replace : ℕ × ℕ → Bytes → Bytes → Bytes
replace (start, len) dng jpeg =
    if ltb 0 len then take start dng ++ (jpeg ++ drop (start + len) dng) else dng ++ jpeg

unfoldable pub embed : Bytes → Bytes → Bytes
embed dng jpeg = replace (find_jpeg 0 dng) dng jpeg

-- At least 64 bytes that begin with the start marker.
unfoldable pub is_jpeg : Bytes → Bool
is_jpeg (b ∷ c ∷ s) = not (ltb (2 + length s) 64) && b == 255 && c == 216
is_jpeg _ = false

abbrev pub Files : Type 0
Files = Map Bytes Bytes

-- A file that cannot be opened is empty.
unfoldable pub read_file : Files → Bytes → Bytes
read_file fs path = elim (lookup path fs) [ none ↦ [] | some d ↦ d ]

-- The exit code, the files and the standard output.
pub record Outcome : Type 0 where
  pub code : ℕ
  pub files : Files
  pub out : Bytes

unfoldable pub report : Bytes → Bytes → ℤ → ℤ → ℤ → ℕ → Bytes
report dng jpeg w h q size =
    codes "{\"dng\":\""
    ++ dng
    ++ codes "\",\"jpeg\":\""
    ++ jpeg
    ++ codes "\",\"width\":"
    ++ show_int w
    ++ codes ",\"height\":"
    ++ show_int h
    ++ codes ",\"quality\":"
    ++ show_int q
    ++ codes ",\"bytes\":"
    ++ to_string size
    ++ codes ",\"status\":\"ok\"}\n"

abbrev pub failed : ℕ → Files → Outcome
failed code fs = record { code = code; files = fs; out = [] }

-- The system: whether `fs::exists` answers or throws, and what stands in a file of a path after bytes are
-- written to it, which may be a part of them; `none` if it does not open.
pub record Disk : Type 0 where
  pub can_stat : Bytes → Bool
  pub written : Bytes → Bytes → Option Bytes

module _ (disk : Disk) where
  -- The files that can be read: the replacement, and its writing, whose stream is not looked at.
  unfoldable pub write : Bytes → Bytes → ℤ → ℤ → ℤ → Files → Outcome
  write dng jpeg w h q fs = elim (disk.written dng (embed (read_file fs dng) (read_file fs jpeg))) [
    | none ↦ failed 1 fs
    | some left ↦ record {
      code = 0;
      files = insert dng left fs;
      out = report dng jpeg w h q (length (read_file fs jpeg));
    }
  ]

  -- The checks in their order.
  unfoldable pub check_files : Bytes → Bytes → ℤ → ℤ → ℤ → Files → Outcome
  check_files dng jpeg w h q fs =
      if not (contains dng fs)
      then failed 1 fs
      else if not (is_jpeg (read_file fs jpeg))
      then failed 1 fs
      else if is_empty (read_file fs dng)
      then failed 1 fs
      else write dng jpeg w h q fs

  -- `none` is an exception, which nothing catches: here that of `fs::exists`, then that of `stoi`.
  unfoldable pub check : Bytes → Bytes → ℤ → ℤ → ℤ → Files → Option Outcome
  check dng jpeg w h q fs = if disk.can_stat dng then some (check_files dng jpeg w h q fs) else none

  unfoldable pub check_numbers :
      Bytes → Bytes → Option ℤ → Option ℤ → Option ℤ → Files → Option Outcome
  check_numbers dng jpeg (some w) (some h) (some q) fs = check dng jpeg w h q fs
  check_numbers dng jpeg _ _ _ fs = none

  -- The arguments behind the name of the program.
  unfoldable pub main : List Bytes → Files → Option Outcome
  main (dng ∷ jpeg ∷ w ∷ h ∷ q ∷ args) fs = check_numbers dng jpeg (stoi w) (stoi h) (stoi q) fs
  main _ fs = some (failed 2 fs)
