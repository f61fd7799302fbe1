-- ===== src/PreviewEmbed/Twice.antt =====
-- A second run of src/tools/dng_previewembed.cpp.
use autodngconverter.Base.{
  ℕ, suc, ◌+◌, ◌≡◌, refl, sym, ap, ◌∙◌, Bool, true, false, ◌&&◌, Option, none, some, [], ◌∷◌, ◌++◌,
  arith, Bytes, length, ◌==◌, append-nil, if◌then◌else◌,
}
use mathlib.Core.Path.{subst}
use autodngconverter.Pipeline.Thumbnail.{end_marker}
use autodngconverter.PreviewEmbed.{find_jpeg, replace, embed}
use autodngconverter.PreviewEmbed.Segment.{is_start, HasNoStart}
use autodngconverter.PreviewEmbed.Splice.{Spliced, appended, replaced, replace-at, embed-Spliced}

-- A picture that is one segment: its first end marker is its end.
abbrev pub IsOneSegment : Bytes → Type 0
IsOneSegment jpeg = (s : Bytes) × (jpeg ≡ 255 ∷ 216 ∷ s) × (end_marker s ≡ some (length s))

kept :
    (b : Bool) (o p : Option ℕ) (n : ℕ)
    → ((m : ℕ) → o ≡ some m → p ≡ some m)
    → (if b then some 2 else elim o [ none ↦ none | some m ↦ some (suc m) ]) ≡ some n
    → (if b then some 2 else elim p [ none ↦ none | some m ↦ some (suc m) ]) ≡ some n
kept true o p n f h = h
kept false none p n f h = absurd cc
kept false (some m) p n f h = rw (f m refl) h

-- More bytes behind an end marker do not move it.
end_marker-append : (s t : Bytes) (n : ℕ) → end_marker s ≡ some n → end_marker (s ++ t) ≡ some n
unfolding end_marker
end_marker-append [] t n h = absurd cc
end_marker-append (b ∷ []) t n h = absurd cc
end_marker-append (b ∷ c ∷ s) t n h =
    kept (b == 255 && c == 217) (end_marker (c ∷ s)) (end_marker (c ∷ (s ++ t))) n
      (end_marker-append (c ∷ s) t) h

find_jpeg-hit :
    (i n : ℕ) (s : Bytes) → end_marker s ≡ some n → find_jpeg i (255 ∷ 216 ∷ s) ≡ (i, 2 + n)
unfolding find_jpeg
find_jpeg-hit i n s h = ap after_start h
  where
    after_start : Option ℕ → ℕ × ℕ
    after_start o = elim o [ none ↦ (i, 2 + length s) | some m ↦ (i, 2 + m) ]

find_jpeg-miss :
    (i b c : ℕ) (s : Bytes)
    → is_start b c ≡ false
    → find_jpeg i (b ∷ c ∷ s) ≡ find_jpeg (i + 1) (c ∷ s)
unfolding find_jpeg
find_jpeg-miss i b c s h = ap at_byte h
  where
    at_byte : Bool → ℕ × ℕ
    at_byte v = elim v [
      | false ↦ find_jpeg (i + 1) (c ∷ s)
      | true ↦ elim (end_marker s) [ none ↦ (i, 2 + length s) | some n ↦ (i, 2 + n) ]
    ]

pair : {a b c d : ℕ} → a ≡ c → b ≡ d → ◌≡◌ {A = ℕ × ℕ} (a, b) (c, d)
pair e f = rw (e, f) refl

-- Behind bytes without a start marker the picture is found, whatever follows it.
find_jpeg-at :
    (i : ℕ) (before s after : Bytes)
    → HasNoStart before
    → end_marker s ≡ some (length s)
    → find_jpeg i (before ++ (255 ∷ 216 ∷ (s ++ after)))
      ≡ (i + length before, length (255 ∷ 216 ∷ s))
find_jpeg-at i [] s after h k =
    find_jpeg-hit i (length s) (s ++ after) (end_marker-append s after (length s) k)
    ∙ pair (omega arith) (omega arith)
find_jpeg-at i (d ∷ []) s after h k =
    find_jpeg-miss i d 255 (216 ∷ (s ++ after)) (ground arith)
    ∙ find_jpeg-at (i + 1) [] s after tt k
    ∙ pair (omega arith) refl
find_jpeg-at i (d ∷ d' ∷ before) s after (h, hs) k =
    find_jpeg-miss i d d' (before ++ (255 ∷ 216 ∷ (s ++ after))) h
    ∙ find_jpeg-at (i + 1) (d' ∷ before) s after hs k
    ∙ pair (omega arith) refl

-- The file of a run, with the picture in it.
embed-at :
    (before s after : Bytes)
    → HasNoStart before
    → end_marker s ≡ some (length s)
    → embed (before ++ (255 ∷ 216 ∷ (s ++ after))) (255 ∷ 216 ∷ s)
      ≡ before ++ (255 ∷ 216 ∷ (s ++ after))
unfolding embed
embed-at before s after h k =
    ap (λ x. replace x (before ++ (255 ∷ 216 ∷ (s ++ after))) (255 ∷ 216 ∷ s))
      (find_jpeg-at 0 before s after h k)
    ∙ replace-at before (255 ∷ 216 ∷ s) after (255 ∷ 216 ∷ s) (ground arith)

again :
    (dng s y : Bytes)
    → end_marker s ≡ some (length s)
    → Spliced dng (255 ∷ 216 ∷ s) y
    → embed y (255 ∷ 216 ∷ s) ≡ y
again dng s _ k (appended h) =
    subst (λ x. embed (dng ++ (255 ∷ 216 ∷ x)) (255 ∷ 216 ∷ s) ≡ dng ++ (255 ∷ 216 ∷ x))
      (append-nil s) (embed-at dng s [] h k)
again dng s _ k (replaced before seg after e h l) = embed-at before s after h k

-- A second embedding of the same picture changes nothing, if the picture is one segment: it begins with
-- the start marker, and its first end marker is its end.
pub embed-embed :
    (dng jpeg : Bytes) → IsOneSegment jpeg → embed (embed dng jpeg) jpeg ≡ embed dng jpeg
embed-embed dng jpeg (s, e, k) =
    subst (λ x. embed (embed dng x) x ≡ embed dng x) (sym e)
      (again dng s (embed dng (255 ∷ 216 ∷ s)) k (embed-Spliced dng (255 ∷ 216 ∷ s)))
