-- ===== src/PreviewEmbed/Segment.antt =====
-- The segment that the search of src/tools/dng_previewembed.cpp finds.
use autodngconverter.Base.{
  ℕ, zero, suc, ◌+◌, ◌≤◌, ◌≡◌, refl, sym, ap, ◌∙◌, ◌⊎◌, inl, inr, Bool, true, false, ◌&&◌, Option,
  none, some, [], ◌∷◌, ◌++◌, arith, Bytes, length, take-append-drop, length-take, take, drop, ◌==◌,
  append-nil, if◌then◌else◌,
}
use mathlib.Core.Path.{subst}
use autodngconverter.Pipeline.Thumbnail.{end_marker}
use autodngconverter.PreviewEmbed.{find_jpeg}

abbrev pub is_start : ℕ → ℕ → Bool
is_start b c = b == 255 && c == 216

-- No start marker stands in the bytes.
abbrev pub HasNoStart : Bytes → Type 0
HasNoStart [] = Unit
HasNoStart (b ∷ []) = Unit
HasNoStart (b ∷ c ∷ s) = (is_start b c ≡ false) × HasNoStart (c ∷ s)

abbrev is_end : ℕ → ℕ → Bool
is_end b c = b == 255 && c == 217

-- No end marker stands in the bytes.
abbrev pub HasNoEnd : Bytes → Type 0
HasNoEnd [] = Unit
HasNoEnd (b ∷ []) = Unit
HasNoEnd (b ∷ c ∷ s) = (is_end b c ≡ false) × HasNoEnd (c ∷ s)

-- The last two bytes are an end marker, and no other one stands in front of them.
abbrev pub EndsFirst : Bytes → Type 0
EndsFirst s = (body : Bytes) × (s ≡ body ++ (255 ∷ 217 ∷ [])) × HasNoEnd (body ++ (255 ∷ []))

-- A segment: the start marker, and what follows up to the first end marker and with it; `after` follows
-- the segment, and where there is no end marker it is empty.
abbrev pub IsSegment : Bytes → Bytes → Type 0
IsSegment (b ∷ c ∷ s) after = (is_start b c ≡ true) × (EndsFirst s ⊎ ((after ≡ []) × HasNoEnd s))
IsSegment _ after = ⊥

-- What the search finds from position `i` on: nothing, and there is no start marker; or a segment behind
-- bytes without one.
pub data Finding (i : ℕ) (d : Bytes) : ℕ × ℕ → Type 0 where
  missing : HasNoStart d → Finding i d (0, 0)
  found :
      (before seg after : Bytes)
      → d ≡ before ++ (seg ++ after)
      → HasNoStart before
      → IsSegment seg after
      → Finding i d (i + length before, length seg)

ends :
    (b : Bool) (o : Option ℕ) (n k : ℕ)
    → (if b then some 2 else elim o [ none ↦ none | some m ↦ some (suc m) ]) ≡ some n
    → ((m : ℕ) → o ≡ some m → m ≤ suc k)
    → n ≤ suc (suc k)
ends true o n k h f = let e : 2 ≡ n = cc in omega arith
ends false none n k h f = absurd cc
ends false (some m) n k h f = let e : suc m ≡ n = cc in let l = f m refl in omega arith

-- An end marker ends inside the bytes.
end_marker_le : (s : Bytes) (n : ℕ) → end_marker s ≡ some n → n ≤ length s
unfolding end_marker
end_marker_le [] n h = absurd cc
end_marker_le (b ∷ []) n h = absurd cc
end_marker_le (b ∷ c ∷ s) n h =
    ends (b == 255 && c == 217) (end_marker (c ∷ s)) n (length s) h (end_marker_le (c ∷ s))

head_of : (n c d : ℕ) (s x : Bytes) → take n (c ∷ s) ≡ d ∷ x → c ≡ d
head_of zero c d s x h = absurd cc
head_of (suc n) c d s x h = cc

HasNoEnd-cons :
    (b c n : ℕ) (s body : Bytes)
    → is_end b c ≡ false
    → take n (c ∷ s) ≡ body ++ (255 ∷ 217 ∷ [])
    → HasNoEnd (body ++ (255 ∷ []))
    → HasNoEnd ((b ∷ body) ++ (255 ∷ []))
HasNoEnd-cons b c n s [] h e k = (ground arith, tt)
HasNoEnd-cons b c n s (d ∷ body) h e k = (rw (← head_of n c d s _ e) h, k)

marker : (b c : ℕ) (s : Bytes) → is_end b c ≡ true → take 2 (b ∷ c ∷ s) ≡ 255 ∷ 217 ∷ []
marker b c s h = let (e, f) = both h in ap (λ x. x ∷ c ∷ []) e ∙ ap (λ x. 255 ∷ x ∷ []) f
  where
    both : is_end b c ≡ true → (b ≡ 255) × (c ≡ 217)
    both h = ground arith

-- One round of the loop, for its test and the result of the rounds behind it.
first_end :
    (b c n : ℕ) (s : Bytes) (v : Bool) (o : Option ℕ)
    → is_end b c ≡ v
    → (if v then some 2 else elim o [ none ↦ none | some m ↦ some (suc m) ]) ≡ some n
    → ((m : ℕ) → o ≡ some m → EndsFirst (take m (c ∷ s)))
    → EndsFirst (take n (b ∷ c ∷ s))
first_end b c n s true o h e later =
    let two : 2 ≡ n = cc in ([], ap (λ k. take k (b ∷ c ∷ s)) (sym two) ∙ marker b c s h, tt)
first_end b c n s false none h e later = absurd cc
first_end b c n s false (some m) h e later =
    let (body, k, first) = later m refl in
    let next : suc m ≡ n = cc in
    (
      b ∷ body,
      ap (λ j. take j (b ∷ c ∷ s)) (sym next) ∙ ap (b ∷◌) k,
      HasNoEnd-cons b c m s body h k first,
    )

end_marker-EndsFirst : (s : Bytes) (n : ℕ) → end_marker s ≡ some n → EndsFirst (take n s)
unfolding end_marker
end_marker-EndsFirst [] n h = absurd cc
end_marker-EndsFirst (b ∷ []) n h = absurd cc
end_marker-EndsFirst (b ∷ c ∷ s) n h =
    first_end b c n s (is_end b c) (end_marker (c ∷ s)) refl h (end_marker-EndsFirst (c ∷ s))

no_end :
    (b c : ℕ) (s : Bytes) (v : Bool) (o : Option ℕ)
    → is_end b c ≡ v
    → (if v then some 2 else elim o [ none ↦ none | some m ↦ some (suc m) ]) ≡ none
    → (o ≡ none → HasNoEnd (c ∷ s))
    → HasNoEnd (b ∷ c ∷ s)
no_end b c s true o h e later = absurd cc
no_end b c s false none h e later = (h, later refl)
no_end b c s false (some m) h e later = absurd cc

end_marker-HasNoEnd : (s : Bytes) → end_marker s ≡ none → HasNoEnd s
unfolding end_marker
end_marker-HasNoEnd [] h = tt
end_marker-HasNoEnd (b ∷ []) h = tt
end_marker-HasNoEnd (b ∷ c ∷ s) h =
    no_end b c s (is_end b c) (end_marker (c ∷ s)) refl h (end_marker-HasNoEnd (c ∷ s))

-- A finding behind the first byte is one of the whole.
HasNoStart-cons :
    (b c : ℕ) (s before rest : Bytes)
    → is_start b c ≡ false
    → c ∷ s ≡ before ++ rest
    → HasNoStart before
    → HasNoStart (b ∷ before)
HasNoStart-cons b c s [] rest h e k = tt
HasNoStart-cons b c s (d ∷ before) rest h e k = let f : c ≡ d = cc in (rw (← f) h, k)

moved :
    (i : ℕ) (d : Bytes) (m n m' n' : ℕ)
    → Finding i d (m, n)
    → m ≡ m'
    → n ≡ n'
    → Finding i d (m', n')
moved i d m n m' n' h e f = subst (λ k. Finding i d (k, n')) e (subst (λ k. Finding i d (m, k)) f h)

later :
    (i b c : ℕ) (s : Bytes) (x : ℕ × ℕ)
    → is_start b c ≡ false
    → Finding (i + 1) (c ∷ s) x
    → Finding i (b ∷ c ∷ s) x
later i b c s _ h (missing k) = missing (h, k)
later i b c s _ h (found before seg after e k l) =
    moved i (b ∷ c ∷ s) _ _ _ _
      (found (b ∷ before) seg after (ap (b ∷◌) e) (HasNoStart-cons b c s before _ h e k) l)
      (omega arith) refl

here :
    (i b c : ℕ) (s : Bytes)
    → is_start b c ≡ true
    → (o : Option ℕ) → end_marker s ≡ o
    → Finding i (b ∷ c ∷ s) (elim o [ none ↦ (i, 2 + length s) | some n ↦ (i, 2 + n) ])
here i b c s h none e =
    moved i (b ∷ c ∷ s) _ _ _ _
      (found [] (b ∷ c ∷ s) [] (sym (append-nil (b ∷ c ∷ s))) tt
        (h, inr (refl, end_marker-HasNoEnd s e)))
      (omega arith) (omega arith)
here i b c s h (some n) e =
    moved i (b ∷ c ∷ s) _ _ _ _
      (found [] (b ∷ c ∷ take n s) (drop n s) (ap (λ x. b ∷ c ∷ x) (sym (take-append-drop n s))) tt
        (h, inl (end_marker-EndsFirst s n e)))
      (omega arith) (omega (arith, size))
  where
    size : length (take n s) ≡ n
    size = omega (arith, length-take n s, end_marker_le s n e)

pub find_jpeg-Finding : (i : ℕ) (d : Bytes) → Finding i d (find_jpeg i d)
unfolding find_jpeg
find_jpeg-Finding i [] = missing tt
find_jpeg-Finding i (b ∷ []) = missing tt
find_jpeg-Finding i (b ∷ c ∷ s) = go (is_start b c) refl (find_jpeg-Finding (i + 1) (c ∷ s))
  where
    go :
        (v : Bool)
        → is_start b c ≡ v
        → Finding (i + 1) (c ∷ s) (find_jpeg (i + 1) (c ∷ s))
        → Finding i (b ∷ c ∷ s) (elim v [
          | false ↦ find_jpeg (i + 1) (c ∷ s)
          | true ↦ elim (end_marker s) [ none ↦ (i, 2 + length s) | some n ↦ (i, 2 + n) ]
        ])
    go true h k = here i b c s h (end_marker s) refl
    go false h k = later i b c s _ h k
