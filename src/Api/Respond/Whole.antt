-- ===== src/Api/Respond/Whole.antt =====
-- What a client gets of an answer of src/api.cpp.
use autodngconverter.Base.{
  ℕ, zero, suc, ◌≤◌, ◌≡◌, refl, sym, ap, ◌∙◌, List, [], ◌∷◌, ◌++◌, arith, Bytes, length,
  length-drop, take, drop, take-append-drop, append_assoc,
}
use autodngconverter.Api.World.{Response}
use autodngconverter.Api.Respond.{response_text, send_loop, send_response}

-- A peer that takes at least one byte each time, and no more than there are.
abbrev pub Takes : (List ℕ → Bytes → ℕ) → Type 0
Takes send =
    (counts : List ℕ) (b : ℕ) (rest : Bytes)
    → (1 ≤ send counts (b ∷ rest)) × (send counts (b ∷ rest) ≤ length (b ∷ rest))

-- The first bytes of a text.
abbrev pub IsPrefix : Bytes → Bytes → Type 0
IsPrefix s t = (more : Bytes) × (t ≡ s ++ more)

module _ (send : List ℕ → Bytes → ℕ) where
  abbrev sent : ℕ → List ℕ → Bytes → ℕ → Bytes
  sent fuel counts rest k = elim k [
    | zero ↦ []
    | suc n ↦ take (suc n) rest ++ send_loop fuel send (suc n ∷ counts) (drop (suc n) rest)
  ]

  send_loop-IsPrefix :
      (fuel : ℕ) (counts : List ℕ) (rest : Bytes) → IsPrefix (send_loop fuel send counts rest) rest
  unfolding send_loop
  send_loop-IsPrefix zero counts rest = (rest, refl)
  send_loop-IsPrefix (suc fuel) counts [] = ([], refl)
  send_loop-IsPrefix (suc fuel) counts (b ∷ rest) =
      go (send counts (b ∷ rest))
        (λ n. send_loop-IsPrefix fuel (suc n ∷ counts) (drop (suc n) (b ∷ rest)))
    where
      go :
          (k : ℕ)
          → ((n : ℕ)
              → IsPrefix
                  (send_loop fuel send (suc n ∷ counts) (drop (suc n) (b ∷ rest)))
                  (drop (suc n) (b ∷ rest)))
          → IsPrefix (sent fuel counts (b ∷ rest) k) (b ∷ rest)
      go zero h = (b ∷ rest, refl)
      go (suc n) h =
          let (more, e) = h n in
          (
            more,
            sym (take-append-drop (suc n) (b ∷ rest))
                ∙ ap (take (suc n) (b ∷ rest) ++◌) e
                ∙ sym (append_assoc (take (suc n) (b ∷ rest)) _ more),
          )

  send_loop-whole :
      (fuel : ℕ) (counts : List ℕ) (rest : Bytes)
      → Takes send
      → length rest ≤ fuel
      → send_loop fuel send counts rest ≡ rest
  unfolding send_loop
  send_loop-whole zero counts [] t h = refl
  send_loop-whole zero counts (b ∷ rest) t h = absurd (omega arith)
  send_loop-whole (suc fuel) counts [] t h = refl
  send_loop-whole (suc fuel) counts (b ∷ rest) t h =
      go (send counts (b ∷ rest)) (t counts b rest).0 (λ n.
        send_loop-whole fuel (suc n ∷ counts) (drop (suc n) (b ∷ rest)) t
          (omega (arith, length-drop n rest)))
    where
      go :
          (k : ℕ)
          → 1 ≤ k
          → ((n : ℕ)
              → send_loop fuel send (suc n ∷ counts) (drop (suc n) (b ∷ rest))
                ≡ drop (suc n) (b ∷ rest))
          → sent fuel counts (b ∷ rest) k ≡ b ∷ rest
      go zero l e = absurd (omega arith)
      go (suc n) l e = ap (take (suc n) (b ∷ rest) ++◌) (e n) ∙ take-append-drop (suc n) (b ∷ rest)

  -- Whatever the peer takes, it gets the first bytes of the answer in their order; and if it takes at
  -- least one byte each time, it gets the whole answer.
  pub send_response_lem :
      (r : Response)
      → IsPrefix (send_response send r) (response_text r)
        × (Takes send → send_response send r ≡ response_text r)
  unfolding send_response
  send_response_lem r = (
    send_loop-IsPrefix (length (response_text r)) [] (response_text r),
    (λ t. send_loop-whole (length (response_text r)) [] (response_text r) t (omega arith)),
  )
