-- ===== src/Pipeline/Thumbnail/Image.antt =====
-- The segment that `extract_thumbnail` of src/pipeline.cpp writes.
use autodngconverter.Base.{
  ℕ, zero, suc, ◌+◌, ◌≡◌, refl, ◌∙◌, ap, sym, ◌⊎◌, inl, inr, Bool, true, false, ◌&&◌, Option, none,
  some, [], ◌∷◌, ◌++◌, arith, Bytes, length, take, drop, take-append-drop, ltb, ◌==◌, if◌then◌else◌,
  if-Holds,
}
use autodngconverter.Pipeline.Thumbnail.{Segment, end_marker, better, search, thumbnail}

-- A JPEG image as the search sees it: the start marker, bytes, and the end marker.
abbrev pub IsImage : Bytes → Type 0
IsImage s = (body : Bytes) × (s ≡ 255 ∷ 216 ∷ (body ++ (255 ∷ 217 ∷ [])))

abbrev EndsAt : Bytes → ℕ → Type 0
EndsAt s n = (body : Bytes) × (take n s ≡ body ++ (255 ∷ 217 ∷ []))

abbrev from : Option ℕ → ℕ
from none = 0
from (some n) = n

markers : (b c d : ℕ) → (b == 255 && c == d) ≡ true → (b ∷ c ∷ []) ≡ 255 ∷ d ∷ []
markers b c d h = let (hb, hc) = both b c d h in ap (λ x. x ∷ c ∷ []) hb ∙ ap (λ x. 255 ∷ x ∷ []) hc
  where
    both : (b c d : ℕ) → (b == 255 && c == d) ≡ true → (b ≡ 255) × (c ≡ d)
    both b c d h = ground arith

-- One round of the loop over `j`, for its test and the result of the rounds behind it.
ends_here :
    (b c : ℕ) (s : Bytes) (n : ℕ) (here : Bool) (rest : Option ℕ)
    → (b == 255 && c == 217) ≡ here
    → (if here then some 2 else elim rest [ none ↦ none | some m ↦ some (suc m) ]) ≡ some n
    → ((m : ℕ) → rest ≡ some m → EndsAt (c ∷ s) m)
    → EndsAt (b ∷ c ∷ s) n
ends_here b c s n true rest e h later =
    ([], ap (λ k. take k (b ∷ c ∷ s)) (sym (ap from h)) ∙ markers b c 217 e)
ends_here b c s n false none e h later = absurd (cc)
ends_here b c s n false (some m) e h later =
    let (body, k) = later m refl in
    (b ∷ body, ap (λ j. take j (b ∷ c ∷ s)) (sym (ap from h)) ∙ ap (b ∷◌) k)

end_marker-EndsAt : (s : Bytes) (n : ℕ) → end_marker s ≡ some n → EndsAt s n
unfolding end_marker
end_marker-EndsAt [] n h = absurd (cc)
end_marker-EndsAt (b ∷ []) n h = absurd (cc)
end_marker-EndsAt (b ∷ c ∷ s) n h =
    ends_here b c s n (b == 255 && c == 217) (end_marker (c ∷ s)) refl h (end_marker-EndsAt (c ∷ s))

drop-nil : (n : ℕ) → drop {A = ℕ} n [] ≡ []
drop-nil zero = refl
drop-nil (suc n) = refl

suc-add : (a b : ℕ) → suc a + b ≡ suc (a + b)
suc-add a b = omega arith

drop-add : (a b : ℕ) (s : Bytes) → drop (a + b) s ≡ drop b (drop a s)
drop-add zero b s = ap (λ n. drop n s) (omega arith)
drop-add (suc a) b [] = drop-nil (suc a + b) ∙ sym (drop-nil b)
drop-add (suc a) b (c ∷ s) = ap (λ n. drop n (c ∷ s)) (suc-add a b) ∙ drop-add a b s

-- The segment is empty, or it is an image in the bytes.
abbrev Found : Bytes → Segment → Type 0
Found bytes (start, len) = (len ≡ 0) ⊎ IsImage (take len (drop start bytes))

better-Found :
    (bytes : Bytes) (new best : Segment)
    → Found bytes new
    → Found bytes best
    → Found bytes (better new best)
unfolding better
better-Found bytes (i, n) (j, m) h k =
    if-Holds (Found bytes) (ltb m n) (i, n) (j, m) (λ _. h) (λ _. k)

image-Found :
    (bytes s : Bytes) (i n : ℕ) → drop i bytes ≡ 255 ∷ 216 ∷ s → EndsAt s n → Found bytes (i, 2 + n)
image-Found bytes s i n h (body, k) = inr (
  body,
  ap (λ m. take m (drop i bytes)) two ∙ ap (take (suc (suc n))) h ∙ ap (λ w. 255 ∷ 216 ∷ w) k,
)
  where
    two : 2 + n ≡ suc (suc n)
    two = omega arith

-- One round of the loop over `i`, for its test, the end that it finds and the rounds behind it.
round_Found :
    (bytes : Bytes) (fuel i b c : ℕ) (s : Bytes) (best : Segment) (here : Bool) (end : Option ℕ)
    → drop i bytes ≡ b ∷ c ∷ s
    → Found bytes best
    → (b == 255 && c == 216) ≡ here
    → end_marker s ≡ end
    → ((j : ℕ) (t : Bytes) (new : Segment)
        → drop j bytes ≡ t
        → Found bytes new
        → Found bytes (search fuel j t new))
    → Found bytes (elim here [
      | false ↦ search fuel (i + 1) (c ∷ s) best
      | true ↦ elim end [
        | none ↦ search fuel (i + 1) (c ∷ s) best
        | some n ↦ search fuel (i + 2 + n) (drop n s) (better (i, 2 + n) best)
      ]
    ])
round_Found bytes fuel i b c s best false end h k e f rest =
    rest (i + 1) (c ∷ s) best (drop-add i 1 bytes ∙ ap (drop 1) h) k
round_Found bytes fuel i b c s best true none h k e f rest =
    rest (i + 1) (c ∷ s) best (drop-add i 1 bytes ∙ ap (drop 1) h) k
round_Found bytes fuel i b c s best true (some n) h k e f rest =
    rest (i + 2 + n) (drop n s) (better (i, 2 + n) best)
      (drop-add (i + 2) n bytes ∙ ap (drop n) (drop-add i 2 bytes ∙ ap (drop 2) h))
      (better-Found bytes (i, 2 + n) best
        (image-Found bytes s i n (h ∙ ap (◌++ s) (markers b c 216 e)) (end_marker-EndsAt s n f)) k)

search-Found :
    (bytes : Bytes) (fuel i : ℕ) (s : Bytes) (best : Segment)
    → drop i bytes ≡ s
    → Found bytes best
    → Found bytes (search fuel i s best)
unfolding search
search-Found bytes zero i s best h k = k
search-Found bytes (suc fuel) i [] best h k = k
search-Found bytes (suc fuel) i (b ∷ []) best h k = k
search-Found bytes (suc fuel) i (b ∷ c ∷ s) best h k =
    round_Found bytes fuel i b c s best (b == 255 && c == 216) (end_marker s) h k refl refl
      (search-Found bytes fuel)

written-IsImage :
    (bytes : Bytes) (g : Segment) (out : Bytes) (short : Bool)
    → Found bytes g
    → ltb g.1 64 ≡ short
    → (if short then none else some (take g.1 (drop g.0 bytes))) ≡ some out
    → IsImage out × ((before : Bytes) × (after : Bytes) × (bytes ≡ before ++ (out ++ after)))
written-IsImage bytes (i, n) out true k e h = absurd (cc)
written-IsImage bytes (i, n) out false (inl z) e h = absurd (ground arith)
written-IsImage bytes (i, n) out false (inr (body, k)) e h =
    let same = ap (text_of) h in
    (
      (body, sym same ∙ k),
      (
        take i bytes,
        drop n (drop i bytes),
        sym (take-append-drop i bytes)
            ∙ ap (take i bytes ++◌)
                (sym (take-append-drop n (drop i bytes)) ∙ ap (◌++ drop n (drop i bytes)) same),
      ),
    )
  where
    text_of : Option Bytes → Bytes
    text_of none = []
    text_of (some t) = t

-- What is written is an image of the bytes of the file: it begins with the start marker and ends with
-- the end marker of JPEG, and it stands in the file.
pub thumbnail-IsImage :
    (bytes out : Bytes)
    → thumbnail bytes ≡ some out
    → IsImage out × ((before : Bytes) × (after : Bytes) × (bytes ≡ before ++ (out ++ after)))
unfolding thumbnail
thumbnail-IsImage bytes out h =
    let g = search (length bytes) 0 bytes (0, 0) in
    written-IsImage bytes g out (ltb g.1 64)
      (search-Found bytes (length bytes) 0 bytes (0, 0) refl (inl refl)) refl h
