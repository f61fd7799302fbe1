-- ===== src/Util/Move/Balance.antt =====
-- The descriptors, the result and the loop of `move_file` of src/util.cpp.
use autodngconverter.Base.{
  ℕ, zero, suc, ◌+◌, ◌-◌, ◌≤◌, ◌≡◌, refl, ◌∙◌, ap, inl, inr, Bool, true, false, Option, none, some,
  [], ◌∷◌, arith, ◌==◌, ltb, if◌then◌else◌, Bool-cases,
}
use autodngconverter.Util.Move.{
  source, target, renamed, opened, stated, copied, closed, removed, Trace, Files, copy_loop,
  sync_opened, remove_source, copy_whole, conclude, copy_to, copy_across, move_file,
}

-- The last event decides whether the move has succeeded.
abbrev pub succeeded : Trace → Bool
succeeded [] = false
succeeded (renamed ok ∷ t) = ok
succeeded (removed ok ∷ t) = ok
succeeded (_ ∷ t) = false

-- How often a file is opened and closed.
abbrev pub opens : Trace → ℕ
opens [] = 0
opens (opened f ok ∷ t) = (if ok then 1 else 0) + opens t
opens (_ ∷ t) = opens t

abbrev pub closes : Trace → ℕ
closes [] = 0
closes (closed f ∷ t) = 1 + closes t
closes (_ ∷ t) = closes t

ltb-le : {a b : ℕ} → b ≤ a → ltb a b ≡ false
ltb-le h = ground arith

suc-add : (a b : ℕ) → suc a + b ≡ suc (a + b)
suc-add a b = omega arith

module _ (fs : Files) where
  copy_loop-opens :
      (fuel size offset sum : ℕ) (t : Trace)
      → let u = (copy_loop fs fuel size offset sum t).1 in
        (opens u ≡ opens t) × (closes u ≡ closes t)
  unfolding copy_loop
  copy_loop-opens zero size offset sum t = (refl, refl)
  copy_loop-opens (suc fuel) size offset sum t =
      let n = fs.copy_file_range t (size - offset) in
      ground (arith, copy_loop-opens fuel size (offset + n) (sum + n) (copied n ∷ t))

  copy_whole-balance :
      (t : Trace)
      → let r = copy_whole fs t in
        (r.0 ≡ succeeded r.1) × (opens r.1 + closes t ≡ opens t + closes r.1)
  unfolding copy_whole remove_source sync_opened
  copy_whole-balance t = ground arith

  conclude-balance :
      (size sum : ℕ) (t : Trace)
      → let r = conclude fs size (sum, t) in
        (r.0 ≡ succeeded r.1) × (opens r.1 + closes t + 2 ≡ opens t + closes r.1)
  unfolding conclude remove_source sync_opened
  conclude-balance size sum t =
      ground (arith, copy_whole-balance (closed target ∷ closed source ∷ t))

  copy_to-balance :
      (o : Option ℕ) (t : Trace)
      → let r = copy_to fs o t in
        (r.0 ≡ succeeded r.1) × (opens r.1 + closes t + 1 ≡ opens t + closes r.1)
  unfolding copy_to
  copy_to-balance none t = ground arith
  copy_to-balance (some size) t =
      let r = copy_loop fs size size 0 0 (opened target true ∷ t) in
      ground (
        arith,
        conclude-balance size r.0 r.1,
        copy_loop-opens size size 0 0 (opened target true ∷ t),
      )

  -- Every descriptor that is opened is closed on every path, and the result is true exactly if the
  -- last call is a rename or a removal of the source that succeeds.
  pub move_file-balance :
      (t : Trace)
      → let r = move_file fs t in
        (r.0 ≡ succeeded r.1) × (opens r.1 + closes t ≡ opens t + closes r.1)
  unfolding move_file copy_across
  move_file-balance t =
      let u = opened source true ∷ renamed false ∷ t in
      ground (arith, copy_to-balance (fs.fstat u) (stated (fs.fstat u) ∷ u))

  copy_loop-done :
      (fuel size offset sum : ℕ) (t : Trace)
      → size ≤ offset
      → copy_loop fs fuel size offset sum t ≡ (sum, t)
  unfolding copy_loop
  copy_loop-done zero size offset sum t h = refl
  copy_loop-done (suc fuel) size offset sum t h = rw (ltb-le h) refl

  copy_loop_step :
      (a b : ℕ) (size offset sum : ℕ) (t : Trace)
      → ((n : ℕ)
          → (n == 0) ≡ false
          → copy_loop fs a size (offset + n) (sum + n) (copied n ∷ t)
            ≡ copy_loop fs b size (offset + n) (sum + n) (copied n ∷ t))
      → copy_loop fs (suc a) size offset sum t ≡ copy_loop fs (suc b) size offset sum t
  unfolding copy_loop
  copy_loop_step a b size offset sum t h =
      elim (Bool-cases (fs.copy_file_range t (size - offset) == 0)) [
        | inl k ↦ rw (k) refl
        | inr k ↦ rw (h (fs.copy_file_range t (size - offset)) k) refl
      ]

  -- The size of the file is enough fuel for the loop, since each round copies a byte at least: with
  -- more fuel it does the same.
  pub copy_loop_fuel :
      (fuel more size offset sum : ℕ) (t : Trace)
      → size ≤ offset + fuel
      → copy_loop fs (fuel + more) size offset sum t ≡ copy_loop fs fuel size offset sum t
  unfolding copy_loop
  copy_loop_fuel zero more size offset sum t h =
      copy_loop-done (0 + more) size offset sum t (omega arith)
  copy_loop_fuel (suc fuel) more size offset sum t h =
      ap (λ k. copy_loop fs k size offset sum t) (suc-add fuel more)
      ∙ copy_loop_step (fuel + more) fuel size offset sum t
          (λ n k. copy_loop_fuel fuel more size (offset + n) (sum + n) (copied n ∷ t) (room n k))
    where
      room : (n : ℕ) → (n == 0) ≡ false → size ≤ offset + n + fuel
      room n k = ground arith
