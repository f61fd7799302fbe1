-- ===== src/PreviewEmbed/Splice.antt =====
-- Where src/tools/dng_previewembed.cpp puts the picture.
use autodngconverter.Base.{
  ℕ, ◌+◌, ◌≡◌, refl, sym, ap, ◌∙◌, true, [], ◌∷◌, ◌++◌, arith, Bytes, length, length-append, take,
  drop, ltb, append_assoc,
}
use mathlib.Core.Path.{subst}
use autodngconverter.PreviewEmbed.{find_jpeg, replace, embed}
use autodngconverter.PreviewEmbed.Segment.{
  HasNoStart, IsSegment, Finding, missing, found, find_jpeg-Finding,
}

take-length : (s t : Bytes) → take (length s) (s ++ t) ≡ s
take-length [] t = refl
take-length (c ∷ s) t = ap (c ∷◌) (take-length s t)

drop-length : (s t : Bytes) → drop (length s) (s ++ t) ≡ t
drop-length [] t = refl
drop-length (c ∷ s) t = drop-length s t

-- The replacement of a segment that stands in the bytes.
pub replace-at :
    (before seg after jpeg : Bytes)
    → ltb 0 (length seg) ≡ true
    → replace (0 + length before, length seg) (before ++ (seg ++ after)) jpeg
      ≡ before ++ (jpeg ++ after)
unfolding replace
replace-at before seg after jpeg h = rw (h) (
    ap
      (λ n.
        take n (before ++ (seg ++ after))
        ++ (jpeg ++ drop (0 + length before + length seg) (before ++ (seg ++ after))))
      (first)
    ∙ ap (λ x. x ++ (jpeg ++ drop (0 + length before + length seg) (before ++ (seg ++ after))))
        (take-length before (seg ++ after))
    ∙ ap (λ x. before ++ (jpeg ++ x)) rest)
  where
    first : 0 + length before ≡ length before
    first = omega arith

    rest : drop (0 + length before + length seg) (before ++ (seg ++ after)) ≡ after
    rest = rw (← append_assoc before seg after) (
        ap (λ n. drop n ((before ++ seg) ++ after)) {y = length (before ++ seg)}
          (omega (arith, length-append before seg))
        ∙ drop-length (before ++ seg) after)

-- The bytes after a run: the picture in the place of the first segment, or at the end of bytes without
-- a start marker.
pub data Spliced (dng jpeg : Bytes) : Bytes → Type 0 where
  appended : HasNoStart dng → Spliced dng jpeg (dng ++ jpeg)
  replaced :
      (before seg after : Bytes)
      → dng ≡ before ++ (seg ++ after)
      → HasNoStart before
      → IsSegment seg after
      → Spliced dng jpeg (before ++ (jpeg ++ after))

length-IsSegment : (seg after : Bytes) → IsSegment seg after → ltb 0 (length seg) ≡ true
length-IsSegment [] after h = absurd h
length-IsSegment (b ∷ []) after h = absurd h
length-IsSegment (b ∷ c ∷ s) after h = ground arith

replace-none : (dng jpeg : Bytes) → replace (0, 0) dng jpeg ≡ dng ++ jpeg
unfolding replace
replace-none dng jpeg = refl

replace-Spliced :
    (dng jpeg : Bytes) (x : ℕ × ℕ) → Finding 0 dng x → Spliced dng jpeg (replace x dng jpeg)
replace-Spliced dng jpeg _ (missing h) =
    subst (Spliced dng jpeg) (sym (replace-none dng jpeg)) (appended h)
replace-Spliced dng jpeg _ (found before seg after e h k) =
    subst (Spliced dng jpeg)
      (sym (
        ap (λ d. replace (0 + length before, length seg) d jpeg) e
        ∙ replace-at before seg after jpeg (length-IsSegment seg after k)))
      (replaced before seg after e h k)

-- The picture takes the place of the first JPEG segment of the file, from its start marker to the first
-- end marker or, without one, to the end of the file, and all bytes in front of it and
-- behind it stay as they are; in a file without a start marker it stands behind all its bytes.
pub embed-Spliced : (dng jpeg : Bytes) → Spliced dng jpeg (embed dng jpeg)
unfolding embed
embed-Spliced dng jpeg = replace-Spliced dng jpeg (find_jpeg 0 dng) (find_jpeg-Finding 0 dng)
