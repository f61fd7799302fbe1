-- ===== src/Util/Trim.antt =====
-- `trim` of src/util.cpp.
use autodngconverter.Base.{
  ℕ, ◌≡◌, refl, inl, inr, true, false, [], ◌∷◌, ◌++◌, All, Bytes, isspace, if◌then◌else◌,
  Bool-cases,
}

-- `while (a < b && isspace(s[a])) ++a;`
unfoldable pub skip_front : Bytes → Bytes
skip_front [] = []
skip_front (c ∷ s) = let rest = skip_front s in if isspace c then rest else c ∷ s

-- One byte in front of a text whose trailing spaces are gone.
unfoldable pub keep : ℕ → Bytes → Bytes
keep c [] = if isspace c then [] else c ∷ []
keep c (d ∷ s) = c ∷ d ∷ s

-- `while (b > a && isspace(s[b-1])) --b;`
unfoldable pub skip_back : Bytes → Bytes
unfolding keep
skip_back [] = []
skip_back (c ∷ s) = keep c (skip_back s)

unfoldable pub trim : Bytes → Bytes
unfolding skip_front skip_back isspace
trim s = skip_back (skip_front s)

abbrev pub IsSpace : ℕ → Type 0
IsSpace c = isspace c ≡ true

-- The text neither begins nor ends with a space.
abbrev pub StartsBare : Bytes → Type 0
StartsBare [] = Unit
StartsBare (c ∷ s) = isspace c ≡ false

abbrev pub EndsBare : Bytes → Type 0
EndsBare [] = Unit
EndsBare (c ∷ []) = isspace c ≡ false
EndsBare (c ∷ d ∷ s) = EndsBare (d ∷ s)

pub record IsTrimmed (s : Bytes) : Type 0 where
  pub front : StartsBare s
  pub back : EndsBare s

skip_front-splits : (s : Bytes) → (pre : Bytes) × All IsSpace pre × (s ≡ pre ++ skip_front s)
unfolding skip_front
skip_front-splits [] = ([], tt, refl)
skip_front-splits (c ∷ s) = elim (Bool-cases (isspace c)) [
  | inl space ↦
      let (pre, spaces, e) = skip_front-splits s in (c ∷ pre, (space, spaces), rw space (cc))
  | inr bare ↦ ([], tt, rw bare)
]

skip_front-StartsBare : (s : Bytes) → StartsBare (skip_front s)
unfolding skip_front
skip_front-StartsBare [] = tt
skip_front-StartsBare (c ∷ s) = elim (Bool-cases (isspace c)) [
  | inl space ↦ rw space (skip_front-StartsBare s)
  | inr bare ↦ rw bare bare
]

-- Trailing spaces behind one byte: none of them is kept.
keep-splits :
    (c : ℕ) (s t post : Bytes)
    → All IsSpace post
    → s ≡ t ++ post
    → (post' : Bytes) × All IsSpace post' × (c ∷ s ≡ keep c t ++ post')
unfolding keep
keep-splits c s [] post h e = elim (Bool-cases (isspace c)) [
  | inl space ↦ (c ∷ post, (space, h), rw space (cc))
  | inr bare ↦ (post, h, rw bare (cc))
]
keep-splits c s (d ∷ t) post h e = (post, h, cc)

skip_back-splits : (s : Bytes) → (post : Bytes) × All IsSpace post × (s ≡ skip_back s ++ post)
unfolding skip_back
skip_back-splits [] = ([], tt, refl)
skip_back-splits (c ∷ s) =
    let (post, spaces, e) = skip_back-splits s in keep-splits c s (skip_back s) post spaces e

keep-EndsBare : (c : ℕ) (s : Bytes) → EndsBare s → EndsBare (keep c s)
unfolding keep
keep-EndsBare c [] h = elim (Bool-cases (isspace c)) [
  | inl space ↦ rw space tt
  | inr bare ↦ rw bare bare
]
keep-EndsBare c (d ∷ s) h = h

skip_back-EndsBare : (s : Bytes) → EndsBare (skip_back s)
unfolding skip_back
skip_back-EndsBare [] = tt
skip_back-EndsBare (c ∷ s) = keep-EndsBare c (skip_back s) (skip_back-EndsBare s)

keep-StartsBare : (c : ℕ) (s : Bytes) → isspace c ≡ false → StartsBare (keep c s)
unfolding keep
keep-StartsBare c [] h = rw h h
keep-StartsBare c (d ∷ s) h = h

skip_back-StartsBare : (s : Bytes) → StartsBare s → StartsBare (skip_back s)
unfolding skip_back
skip_back-StartsBare [] h = tt
skip_back-StartsBare (c ∷ s) h = keep-StartsBare c (skip_back s) h

pub trim-IsTrimmed : (s : Bytes) → IsTrimmed (trim s)
unfolding trim
trim-IsTrimmed s = record {
  front = skip_back-StartsBare (skip_front s) (skip_front-StartsBare s);
  back = skip_back-EndsBare (skip_front s);
}

-- The text is its trimmed middle between two runs of spaces, and the middle neither begins nor
-- ends with a space.
pub trim-splits :
    (s : Bytes)
    → (pre post : Bytes) × All IsSpace pre
      × All IsSpace post
      × (s ≡ pre ++ (trim s ++ post))
      × IsTrimmed (trim s)
trim-splits s =
    let (pre, hp, e) = skip_front-splits s in
    let (post, hq, f) = skip_back-splits (skip_front s) in
    (pre, post, hp, hq, unfold trim in cc, trim-IsTrimmed s)

skip_front-eq : (s : Bytes) → StartsBare s → skip_front s ≡ s
unfolding skip_front
skip_front-eq [] h = refl
skip_front-eq (c ∷ s) h = rw h

skip_back-eq : (s : Bytes) → EndsBare s → skip_back s ≡ s
unfolding skip_back keep
skip_back-eq [] h = refl
skip_back-eq (c ∷ []) h = rw h
skip_back-eq (c ∷ d ∷ s) h = rw (skip_back-eq (d ∷ s) h, keep)

-- A trimmed text is left as it is.
pub trim-eq : (s : Bytes) → IsTrimmed s → trim s ≡ s
unfolding trim
trim-eq s h = rw (skip_front-eq s h.front) (skip_back-eq s h.back)
