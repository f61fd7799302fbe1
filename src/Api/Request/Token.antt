-- ===== src/Api/Request/Token.antt =====
-- What a request that `handle` of src/api.cpp lets through holds.
use autodngconverter.Base.{
  ℕ, zero, suc, ◌+◌, ◌≡◌, refl, sym, ap, ◌∙◌, ◌⊎◌, inl, inr, Bool, true, false, Option, none, some,
  [], ◌∷◌, ◌++◌, arith, Bytes, codes, starts_with, bytes_eq, bytes_eq_iff, length, take, drop,
  take-append-drop, append-nil, if◌then◌else◌,
}
use autodngconverter.Api.Request.{
  find_text, up_to, line_end, token_behind, token_in, is_token, bearer_token, has_token,
}

-- The text holds the token: "Authorization:" stands somewhere in it, in a header or not, and somewhere
-- behind that, in the same line or not, "Bearer " with the token, which a line end or the end follows.
abbrev pub Bears : Bytes → Bytes → Type 0
Bears token req =
    (a : Bytes) × (m : Bytes) × (b : Bytes) × (c : Bytes) × (req ≡ a ++ m)
    × (starts_with (codes "Authorization:") m ≡ true)
    × (m ≡ b ++ (codes "Bearer " ++ (token ++ c)))
    × ((c ≡ []) ⊎ (starts_with line_end c ≡ true))

pub starts_with-splits : (pat s : Bytes) → starts_with pat s ≡ true → s ≡ pat ++ drop (length pat) s
unfolding starts_with
starts_with-splits [] s h = refl
starts_with-splits (p ∷ pat) [] h = absurd cc
starts_with-splits (p ∷ pat) (c ∷ s) h = ground (arith, starts_with-splits pat s)

stands :
    (pat s : Bytes) (c : ℕ) (b : Bool) (o : Option ℕ)
    → starts_with pat (c ∷ s) ≡ b
    → ((j : ℕ) → o ≡ some j → starts_with pat (drop j s) ≡ true)
    → (i : ℕ) → (if b then some 0 else elim o [ none ↦ none | some j ↦ some (suc j) ]) ≡ some i
    → starts_with pat (drop i (c ∷ s)) ≡ true
stands pat s c true o k later i h = let e : 0 ≡ i = cc in rw (← e) k
stands pat s c false none k later i h = absurd cc
stands pat s c false (some j) k later i h = let e : suc j ≡ i = cc in rw (← e) (later j refl)

-- A position that `find` gives is one where the pattern stands.
pub find_text-Stands :
    (pat s : Bytes) (i : ℕ) → find_text pat s ≡ some i → starts_with pat (drop i s) ≡ true
unfolding find_text
find_text-Stands pat [] i h = absurd cc
find_text-Stands pat (c ∷ s) i h =
    stands pat s c (starts_with pat (c ∷ s)) (find_text pat s) refl (find_text-Stands pat s) i h

drop-nil : (n : ℕ) → drop {A = ℕ} n [] ≡ []
drop-nil zero = refl
drop-nil (suc n) = refl

drop-drop : (i j : ℕ) (s : Bytes) → drop i (drop j s) ≡ drop (j + i) s
drop-drop i zero s = ap (λ n. drop n s) {x = i} {y = 0 + i} (omega arith)
drop-drop i (suc j) [] = drop-nil i ∙ sym (drop-nil (suc j + i))
drop-drop i (suc j) (c ∷ s) =
    drop-drop i j s ∙ ap (λ n. drop n (c ∷ s)) {x = suc (j + i)} {y = suc j + i} (omega arith)

-- `up_to` splits the text in front of the pattern, or is all of it.
up_to-splits :
    (pat s : Bytes) → (c : Bytes) × (s ≡ up_to pat s ++ c) × ((c ≡ []) ⊎ (starts_with pat c ≡ true))
unfolding up_to
up_to-splits pat s = go (find_text pat s) refl
  where
    go :
        (o : Option ℕ)
        → find_text pat s ≡ o
        → (c : Bytes) × (s ≡ elim o [ none ↦ s | some i ↦ take i s ] ++ c)
          × ((c ≡ []) ⊎ (starts_with pat c ≡ true))
    go none h = ([], sym (append-nil s), inl refl)
    go (some i) h = (drop i s, sym (take-append-drop i s), inr (find_text-Stands pat s i h))

-- Behind a position of "Bearer ", up to the end of the line.
token_lem :
    (token m : Bytes) (j : ℕ)
    → find_text (codes "Bearer ") m ≡ some j
    → bytes_eq (up_to line_end (drop (j + 7) m)) token ≡ true
    → (b : Bytes) × (c : Bytes) × (m ≡ b ++ (codes "Bearer " ++ (token ++ c)))
      × ((c ≡ []) ⊎ (starts_with line_end c ≡ true))
token_lem token m j k h =
    let (c, split, end) = up_to-splits line_end (drop (j + 7) m) in
    let e = (bytes_eq_iff (up_to line_end (drop (j + 7) m)) token).0 h in
    (
      take j m,
      c,
      sym (take-append-drop j m)
          ∙ ap (take j m ++◌) (
              starts_with-splits (codes "Bearer ") (drop j m)
                (find_text-Stands (codes "Bearer ") m j k)
              ∙ ap (codes "Bearer " ++◌) (drop-drop 7 j m ∙ split ∙ ap (◌++ c) e)),
      end,
    )

bears :
    (token req : Bytes) (i : ℕ)
    → find_text (codes "Authorization:") req ≡ some i
    → (o : Option ℕ) → find_text (codes "Bearer ") (drop i req) ≡ o
    → is_token token (token_behind (drop i req) o) ≡ true
    → Bears token req
bears token req i k none l h = absurd cc
bears token req i k (some j) l h =
    let (b, c, e, end) = token_lem token (drop i req) j l h in
    (
      take i req,
      drop i req,
      b,
      c,
      sym (take-append-drop i req),
      find_text-Stands (codes "Authorization:") req i k,
      e,
      end,
    )

-- A request that passes the test holds the token in its text.
pub has_token-Bears : (token req : Bytes) → has_token token req ≡ true → Bears token req
unfolding has_token bearer_token
has_token-Bears token req h = go (find_text (codes "Authorization:") req) refl h
  where
    go :
        (o : Option ℕ)
        → find_text (codes "Authorization:") req ≡ o
        → is_token token (token_in req o) ≡ true
        → Bears token req
    go none k l = absurd cc
    go (some i) k l = bears token req i k (find_text (codes "Bearer ") (drop i req)) refl l

-- A search that fails at a byte fails behind it, and the pattern does not stand there.
pub fails :
    (b : Bool) (o : Option ℕ)
    → (if b then some 0 else elim o [ none ↦ none | some i ↦ some (suc i) ]) ≡ none
    → (b ≡ false) × (o ≡ none)
fails true o h = absurd cc
fails false none h = (refl, refl)
fails false (some i) h = absurd cc

-- A pattern that `find` does not give stands nowhere in the text; it is not empty.
pub find_text-none :
    (p : ℕ) (pat a m : Bytes)
    → find_text (p ∷ pat) (a ++ m) ≡ none
    → starts_with (p ∷ pat) m ≡ false
unfolding find_text starts_with
find_text-none p pat [] [] h = refl
find_text-none p pat [] (c ∷ m) h = (fails _ (find_text (p ∷ pat) m) h).0
find_text-none p pat (c ∷ a) m h =
    find_text-none p pat a m (fails _ (find_text (p ∷ pat) (a ++ m)) h).1
