-- ===== src/Pipeline/Thumbnail.antt =====
-- The search of `extract_thumbnail` of src/pipeline.cpp for the largest JPEG segment, over
-- the bytes of the DNG file.
pub mod Image
use autodngconverter.Base.{
  ℕ, zero, suc, ◌+◌, ◌*◌, ◌%◌, ◌/◌, ◌^◌, Bool, true, false, ◌&&◌, Option, none, some, List, [], ◌∷◌,
  ◌++◌, Bytes, length, take, drop, ltb, ◌==◌, if◌then◌else◌,
}

-- The loop over `j`: the length of the text up to and with the end marker, if there is one.
unfoldable pub end_marker : Bytes → Option ℕ
end_marker [] = none
end_marker (b ∷ []) = none
end_marker (b ∷ c ∷ s) =
    let rest = end_marker (c ∷ s) in
    if b == 255 && c == 217 then some 2 else elim rest [ none ↦ none | some n ↦ some (suc n) ]

abbrev pub Segment : Type 0
Segment = ℕ × ℕ

-- A longer segment replaces the best one.
unfoldable pub better : Segment → Segment → Segment
better (start, len) (best_start, best_len) =
    if ltb best_len len then (start, len) else (best_start, best_len)

-- The loop over `i`, for what is left of the data from there; the fuel bounds its length.
unfoldable pub search : ℕ → ℕ → Bytes → Segment → Segment
unfolding end_marker better
search zero i s best = best
search (suc fuel) i [] best = best
search (suc fuel) i (b ∷ []) best = best
search (suc fuel) i (b ∷ c ∷ s) best = elim (b == 255 && c == 216) [
  | false ↦ search fuel (i + 1) (c ∷ s) best
  | true ↦ elim (end_marker s) [
    | none ↦ search fuel (i + 1) (c ∷ s) best
    | some n ↦ search fuel (i + 2 + n) (drop n s) (better (i, 2 + n) best)
  ]
]

-- The bytes that are written, if a segment of 64 bytes at least is found.
unfoldable pub thumbnail : Bytes → Option Bytes
unfolding search
thumbnail bytes =
    let (start, len) = search (length bytes) 0 bytes (0, 0) in
    if ltb len 64 then none else some (take len (drop start bytes))
