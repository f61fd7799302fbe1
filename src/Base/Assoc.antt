-- ===== src/Base/Assoc.antt =====
-- `std::unordered_map` as an association list. No theorem depends on the order of the entries.
use Prim.Native.Nat.{◌≤◌, ◌<◌}
use mathlib.Core.Path.{◌≡◌}
use mathlib.Core.Logic.{◌≢◌}
use mathlib.Core.Bool.{Bool, true, false}
use mathlib.Core.Option.{Option, none, some}
use mathlib.Core.List.{List, [], ◌∷◌}
use native.Mathlib.Omega.{arith}
use autodngconverter.Base.Tests.{if◌then◌else◌}
use autodngconverter.Base.Lists.{length}
use autodngconverter.Base.Equality.{Eq}

abbrev pub Map {ℓ κ} : Type ℓ → Type κ → Type (ℓ ⊔ κ)
Map K V = List (K × V)

module _ {ℓ κ} {K : Type ℓ} {V : Type κ} ⦃e : Eq K⦄ where
  unfoldable pub lookup : K → Map K V → Option V
  lookup k [] = none
  lookup k ((j, v) ∷ m) = if e.beq j k then some v else lookup k m

  -- Removes every entry of the key.
  unfoldable pub erase : K → Map K V → Map K V
  erase k [] = []
  erase k ((j, v) ∷ m) = let rest = erase k m in if e.beq j k then rest else (j, v) ∷ rest

  -- `m[k] = v`
  unfoldable pub insert : K → V → Map K V → Map K V
  unfolding erase
  insert k v m = (k, v) ∷ erase k m

  unfoldable pub contains : K → Map K V → Bool
  unfolding lookup
  contains k m = elim (lookup k m) [ none ↦ false | some v ↦ true ]

  pub lookup-erase :
      (k j : K) (m : Map K V) → lookup j (erase k m) ≡ (if e.beq k j then none else lookup j m)
  unfolding lookup erase
  lookup-erase k j [] = ground arith
  lookup-erase k j ((i, v) ∷ m) =
      ground (arith, lookup-erase k j m, e.beq_iff i k, e.beq_iff i j, e.beq_iff k j)

  pub lookup-insert :
      (k j : K) (v : V) (m : Map K V)
      → lookup j (insert k v m) ≡ (if e.beq k j then some v else lookup j m)
  unfolding insert lookup
  lookup-insert k j v m = ground (arith, lookup-erase k j m)

  pub contains-lookup : (k : K) (m : Map K V) → contains k m ≡ false → lookup k m ≡ none
  unfolding contains
  contains-lookup k m h = ground arith

  pub contains-some : (k : K) (v : V) (m : Map K V) → lookup k m ≡ some v → contains k m ≡ true
  unfolding contains
  contains-some k v m h = ground arith

  pub contains-erase_self : (k : K) (m : Map K V) → contains k (erase k m) ≡ false
  unfolding contains
  contains-erase_self k m = ground (arith, lookup-erase k k m, e.beq_iff k k)

  pub contains-erase_ne : (k j : K) (m : Map K V) → j ≢ k → contains j (erase k m) ≡ contains j m
  unfolding contains
  contains-erase_ne k j m h = ground (arith, lookup-erase k j m, e.beq_iff k j)

  pub length-erase : (k : K) (m : Map K V) → length (erase k m) ≤ length m
  unfolding erase
  length-erase k [] = omega arith
  length-erase k ((j, v) ∷ m) = ground (arith, length-erase k m)

  -- Erasing a key that is present makes the map smaller.
  pub length-erase_lt : (k : K) (m : Map K V) → contains k m ≡ true → length (erase k m) < length m
  unfolding erase contains
  length-erase_lt k [] h = cc
  length-erase_lt k ((j, v) ∷ m) h = ground (arith, length-erase k m, length-erase_lt k m)
