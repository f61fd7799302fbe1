-- ===== src/Base/Decimal.antt =====
-- `std::to_string` of a number that is not negative, and `std::stoi`.
use Prim.Native.Nat.{ℕ, zero, suc, ◌+◌, ◌-◌, ◌*◌, ◌/◌, ◌%◌, ◌^◌, ◌≤◌}
use mathlib.Core.Logic.{inl, inr}
use native.Mathlib.Omega.{arith}
use mathlib.Core.Bool.{Bool, true, false}
use mathlib.Core.Option.{Option, none, some}
use mathlib.Core.List.{[], ◌∷◌}
use autodngconverter.Base.Tests.{ltb, leb, ◌==◌, if◌then◌else◌, Bool-cases}
use autodngconverter.Base.Text.{Bytes, isspace, isdigit}
use autodngconverter.Base.Int.{ℤ, pos, negsuc, pos_part, neg_part}

-- The digits of `n` in front of `out`; the fuel bounds the number of digits.
unfoldable pub digits : ℕ → ℕ → Bytes → Bytes
digits zero n out = out
digits (suc fuel) n out =
    let rest = digits fuel (n / 10) ((b'0' + n % 10) ∷ out) in
    if ltb n 10 then (b'0' + n) ∷ out else rest

unfoldable pub to_string : ℕ → Bytes
unfolding digits
to_string n = digits (suc n) n []

unfoldable pub value_of : ℕ → Bytes → ℕ
unfolding isdigit
value_of n [] = n
value_of n (c ∷ s) = let rest = value_of (n * 10 + (c - b'0')) s in if isdigit c then rest else n

-- The largest value of an `int` and of a `long`.
abbrev pub int_max : ℕ
int_max = 2 ^ 31 - 1

abbrev pub long_max : ℕ
long_max = 2 ^ 63 - 1

-- The value with its sign; `none` is the exception for a value out of range.
unfoldable pub in_range : ℕ → Bool → ℕ → Option ℤ
in_range max true n =
    if leb n (max + 1) then some (if n == 0 then pos 0 else negsuc (n - 1)) else none
in_range max false n = if leb n max then some (pos n) else none

-- A text with no sign; `none` is the exception for a text that begins with no digit too.
unfoldable pub signless : ℕ → Bool → Bytes → Option ℤ
unfolding value_of isdigit in_range
signless max neg [] = none
signless max neg (c ∷ s) = if isdigit c then in_range max neg (value_of 0 (c ∷ s)) else none

unfoldable pub signed : ℕ → Bytes → Option ℤ
signed max [] = none
signed max (c ∷ s) =
    if c == b'-'
    then signless max true s
    else if c == b'+'
    then signless max false s
    else signless max false (c ∷ s)

-- Leading spaces are skipped, and what stands behind the digits is ignored.
unfoldable pub spaced : ℕ → Bytes → Option ℤ
unfolding isspace signed signless
spaced max [] = none
spaced max (c ∷ s) = let rest = spaced max s in if isspace c then rest else signed max (c ∷ s)

unfoldable pub stoi : Bytes → Option ℤ
unfolding spaced
stoi s = spaced int_max s

unfoldable pub stol : Bytes → Option ℤ
unfolding spaced
stol s = spaced long_max s

-- `std::to_string`, and `<<`, of an `int`.
unfoldable pub show_int : ℤ → Bytes
unfolding to_string
show_int (pos n) = to_string n
show_int (negsuc n) = b'-' ∷ to_string (suc n)

-- A C++ integer with this largest value, and an `int`.
abbrev pub IsWithin : ℕ → ℤ → Type 0
IsWithin max n = (pos_part n ≤ max) × (neg_part n ≤ max + 1)

abbrev pub IsInt : ℤ → Type 0
IsInt n = (pos_part n ≤ 2 ^ 31 - 1) × (neg_part n ≤ 2 ^ 31)

abbrev IsWithinResult : ℕ → Option ℤ → Type 0
IsWithinResult max none = Unit
IsWithinResult max (some n) = IsWithin max n

abbrev pub IsIntResult : Option ℤ → Type 0
IsIntResult none = Unit
IsIntResult (some n) = IsInt n

in_range-IsWithin : (max : ℕ) (neg : Bool) (n : ℕ) → IsWithinResult max (in_range max neg n)
unfolding in_range
in_range-IsWithin max true n = ground arith
in_range-IsWithin max false n = ground arith

signless-IsWithin : (max : ℕ) (neg : Bool) (s : Bytes) → IsWithinResult max (signless max neg s)
unfolding signless
signless-IsWithin max neg [] = tt
signless-IsWithin max neg (c ∷ s) = elim (Bool-cases (isdigit c)) [
  | inl d ↦ rw d (in_range-IsWithin max neg _)
  | inr n ↦ rw n tt
]

signed-IsWithin : (max : ℕ) (s : Bytes) → IsWithinResult max (signed max s)
unfolding signed
signed-IsWithin max [] = tt
signed-IsWithin max (c ∷ s) = ground (
  arith,
  signless-IsWithin max true s,
  signless-IsWithin max false s,
  signless-IsWithin max false (c ∷ s),
)

spaced-IsWithin : (max : ℕ) (s : Bytes) → IsWithinResult max (spaced max s)
unfolding spaced
spaced-IsWithin max [] = tt
spaced-IsWithin max (c ∷ s) = elim (Bool-cases (isspace c)) [
  | inl sp ↦ rw sp (spaced-IsWithin max s)
  | inr n ↦ rw n (signed-IsWithin max (c ∷ s))
]

IsWithin-IsInt : (o : Option ℤ) → IsWithinResult int_max o → IsIntResult o
IsWithin-IsInt none h = h
IsWithin-IsInt (some n) h = h

-- What `stoi` returns is an `int`.
pub stoi-IsInt : (s : Bytes) → IsIntResult (stoi s)
unfolding stoi
stoi-IsInt s = IsWithin-IsInt (spaced int_max s) (spaced-IsWithin int_max s)
