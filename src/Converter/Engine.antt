-- ===== src/Converter/Engine.antt =====
-- The wait for a child, the choice of the binary and the engine factory of src/converter.cpp.
use autodngconverter.Base.{
  ℕ, ◌≡◌, refl, All, ◌⊎◌, inl, inr, Bool, true, false, Option, none, some, List, [], ◌∷◌, ◌++◌,
  arith, Bytes, bytes_eq, is_empty, any, ℤ, pos, negsuc, leb, Bool-cases,
}
use autodngconverter.Config.{Config}
use autodngconverter.Worker.State.{worker_count}
use autodngconverter.Converter.{
  Child, exited, signalled, running, Observation, wait_child, judge, engine_name,
  resolve_engine_binary, make_converter,
}

-- A round after which the loop waits on.
abbrev pub Waits : ℕ → Observation → Type 0
Waits deadline o = (o.child ≡ running) × (leb deadline o.clock ≡ false)

wait_child-append :
    (deadline : ℕ) (os later : List Observation)
    → All (Waits deadline) os
    → wait_child deadline (os ++ later) ≡ wait_child deadline later
unfolding wait_child judge
wait_child-append deadline [] later h = refl
wait_child-append deadline (o ∷ os) later ((h, k), hs) =
    rw (h) (rw (k) (wait_child-append deadline os later hs))

-- Behind rounds in which the child runs and time is left, the first other round decides: the child's
-- exit code, -1 for a child that a signal ended, and -1 for one that is killed at the deadline.
pub wait_child-decides :
    (deadline : ℕ) (os later : List Observation) (clock : ℕ)
    → All (Waits deadline) os
    → ((code : ℕ)
        → wait_child deadline (os ++ (record { child = exited code; clock = clock } ∷ later))
          ≡ some (pos code))
      × (wait_child deadline (os ++ (record { child = signalled; clock = clock } ∷ later))
          ≡ some (negsuc 0))
      × (leb deadline clock ≡ true
          → wait_child deadline (os ++ (record { child = running; clock = clock } ∷ later))
            ≡ some (negsuc 0))
unfolding wait_child judge
wait_child-decides deadline os later clock h = (
  λ code. wait_child-append deadline os _ h,
  wait_child-append deadline os _ h,
  λ k.
      rw (wait_child-append deadline os (record { child = running; clock = clock } ∷ later) h)
        (rw (k) refl),
)

judge-returns :
    (deadline : ℕ) (c : Child) (clock : ℕ) (rest : Option ℤ)
    → (leb deadline clock ≡ true) ⊎ ((r : ℤ) × (rest ≡ some r))
    → (r : ℤ) × (judge deadline c clock rest ≡ some r)
unfolding judge
judge-returns deadline (exited code) clock rest h = (pos code, refl)
judge-returns deadline signalled clock rest h = (negsuc 0, refl)
judge-returns deadline running clock rest (inl h) = (negsuc 0, rw (h) refl)
judge-returns deadline running clock rest (inr (r, h)) = elim (Bool-cases (leb deadline clock)) [
  | inl k ↦ (negsuc 0, rw (k) refl)
  | inr k ↦ (r, rw (k) h)
]

-- The wait ends once the clock of some round has reached the deadline, whatever the child does.
pub wait_child-returns :
    (deadline : ℕ) (os : List Observation)
    → any (λ o. leb deadline o.clock) os ≡ true
    → (r : ℤ) × (wait_child deadline os ≡ some r)
unfolding wait_child
wait_child-returns deadline [] h = absurd (cc)
wait_child-returns deadline (o ∷ os) h =
    judge-returns deadline o.child o.clock (wait_child deadline os)
      (elim (Bool-cases (leb deadline o.clock)) [
        | inl k ↦ inl k
        | inr k ↦ inr (wait_child-returns deadline os (grind arith))
      ])

-- The factory makes an engine that is named dnglab whatever engine is configured, so that the limit
-- of one worker for adobedng never applies.
pub worker_count-make_converter :
    (is_file : Bytes → Bool) (cfg : Config) (hardware : ℕ)
    → worker_count cfg hardware (some (engine_name (make_converter is_file cfg)))
      ≡ worker_count cfg hardware none
unfolding worker_count engine_name bytes_eq
worker_count-make_converter is_file cfg hardware = refl

-- The binary of the engine is the configured one, else the first of the two installed paths that is a
-- regular file, else the plain name; so it is never an absent file of these two paths.
pub resolve_engine_binary_lem :
    (is_file : Bytes → Bool) (cfg : Config) (name : Bytes)
    → let bin = resolve_engine_binary is_file cfg name in
      ((is_empty cfg.converter_engine_bin ≡ false) × (bin ≡ cfg.converter_engine_bin))
      ⊎ ((is_empty cfg.converter_engine_bin ≡ true) × (is_file bin ≡ true))
      ⊎ ((is_empty cfg.converter_engine_bin ≡ true) × (bin ≡ name))
unfolding resolve_engine_binary
resolve_engine_binary_lem is_file cfg name = ground arith
