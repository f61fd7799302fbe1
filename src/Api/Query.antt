-- ===== src/Api/Query.antt =====
-- `parse_query` of src/api.cpp.
pub mod RoundTrip
use autodngconverter.Base.{
  ℕ, zero, suc, ◌-◌, Bool, true, false, Option, none, some, List, [], ◌∷◌, ◌++◌, Bytes, Map, insert,
  bytes_eq_instance, length, take, drop, ltb, ◌==◌, if◌then◌else◌,
}

-- `find` of a byte: its position.
unfoldable pub find : ℕ → Bytes → Option ℕ
find b [] = none
find b (c ∷ s) =
    let rest = find b s in
    if c == b then some 0 else elim rest [ none ↦ none | some i ↦ some (suc i) ]

-- The value: up to the separator, and where the separator stands in front of the equals sign, the
-- length wraps around and the value is all the rest.
unfoldable pub value : Bytes → ℕ → Option ℕ → Bytes
value s eq none = drop (suc eq) s
value s eq (some amp) =
    if ltb eq amp then take (amp - eq - 1) (drop (suc eq) s) else drop (suc eq) s

-- The loop over what is left of the text; the fuel bounds its length.
unfoldable pub parse : ℕ → Bytes → Map Bytes Bytes → Map Bytes Bytes
unfolding find value insert
parse zero s m = m
parse (suc fuel) [] m = m
parse (suc fuel) (c ∷ s) m = elim (find b'=' (c ∷ s)) [
  | none ↦ m
  | some eq ↦ elim (find b'&' (c ∷ s)) [
    | none ↦ insert (take eq (c ∷ s)) (value (c ∷ s) eq none) m
    | some amp ↦
        parse fuel (drop (suc amp) (c ∷ s))
          (insert (take eq (c ∷ s)) (value (c ∷ s) eq (some amp)) m)
  ]
]

unfoldable pub parse_query : Bytes → Map Bytes Bytes
unfolding parse
parse_query q = parse (length q) q []
