-- ===== src/Base/Digits.antt =====
-- The decimal digits that `std::to_string` prints are read back.
use Prim.Native.Nat.{ℕ, zero, suc, ◌+◌, ◌-◌, ◌*◌, ◌/◌, ◌%◌, ◌<◌}
use mathlib.Core.Path.{◌≡◌, ◌∙◌, ap}
use mathlib.Core.Bool.{true}
use mathlib.Core.List.{[], ◌∷◌}
use mathlib.Core.Logic.{inl, inr}
use native.Mathlib.Omega.{arith}
use autodngconverter.Base.Tests.{ltb, Bool-cases}
use autodngconverter.Base.Text.{Bytes, isdigit}
use autodngconverter.Base.Decimal.{digits, to_string, value_of}

isdigit-digit : (n : ℕ) → n < 10 → isdigit (b'0' + n) ≡ true
unfolding isdigit
isdigit-digit n h = ground (arith, h)

pub value_of-digit :
    (m n : ℕ) (out : Bytes) → n < 10 → value_of m ((b'0' + n) ∷ out) ≡ value_of (m * 10 + n) out
unfolding value_of
value_of-digit m n out h =
    rw (isdigit-digit n h) (ap (λ k. value_of k out) {x = m * 10 + (b'0' + n - b'0')} (omega arith))

value_of-digits :
    (fuel n : ℕ) (out : Bytes) → n < fuel → value_of 0 (digits fuel n out) ≡ value_of n out
unfolding digits
value_of-digits zero n out h = absurd (omega arith)
value_of-digits (suc fuel) n out h = elim (Bool-cases (ltb n 10)) [
  | inl l ↦ rw (l) (
      value_of-digit 0 n out (ground (arith, l))
      ∙ ap (λ k. value_of k out) {x = 0 * 10 + n} (omega arith))
  | inr g ↦ rw (g) (
      value_of-digits fuel (n / 10) ((b'0' + n % 10) ∷ out) (ground (arith, g))
      ∙ value_of-digit (n / 10) (n % 10) out (omega arith)
      ∙ ap (λ k. value_of k out) {x = n / 10 * 10 + n % 10} (omega arith))
]

pub value_of-to_string : (n : ℕ) → value_of 0 (to_string n) ≡ n
unfolding to_string value_of
value_of-to_string n = value_of-digits (suc n) n [] (omega arith)
