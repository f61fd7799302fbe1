-- ===== src/Api/Query/RoundTrip.antt =====
-- The query texts that clients write are read back by `parse_query` of src/api.cpp.
use autodngconverter.Base.{
  ℕ, zero, suc, ◌-◌, ◌≤◌, ◌≡◌, refl, sym, ◌∙◌, ap, true, false, Option, none, some, List, [], ◌∷◌,
  ◌++◌, arith, All, All-append, Bytes, Map, insert, bytes_eq_instance, length, length-append, take,
  drop, ltb, ◌==◌, append_assoc,
}
use autodngconverter.Api.Query.{find, value, parse, parse_query}

-- Pairs joined as clients do it.
abbrev pub print : List (Bytes × Bytes) → Bytes
print [] = []
print ((k, v) ∷ []) = k ++ (b'=' ∷ v)
print ((k, v) ∷ p ∷ ps) = k ++ (b'=' ∷ (v ++ (b'&' ∷ print (p ∷ ps))))

-- The map of the pairs, where a later pair replaces an earlier one with its key.
abbrev pub insert_all : List (Bytes × Bytes) → Map Bytes Bytes → Map Bytes Bytes
insert_all [] m = m
insert_all ((k, v) ∷ ps) m = insert_all ps (insert k v m)

abbrev pub Free : ℕ → Bytes → Type 0
Free b = All (λ c. (c == b) ≡ false)

-- Neither separator stands in the key, nor an ampersand in the value.
abbrev pub IsPlain : Bytes × Bytes → Type 0
IsPlain (k, v) = Free b'=' k × Free b'&' k × Free b'&' v

find-append :
    (b : ℕ) (s rest : Bytes)
    → (b == b) ≡ true
    → Free b s
    → find b (s ++ (b ∷ rest)) ≡ some (length s)
unfolding find
find-append b [] rest e h = rw (e) refl
find-append b (c ∷ s) rest e (h, hs) = rw (h, find-append b s rest e hs) refl

find-Free : (b : ℕ) (s : Bytes) → Free b s → find b s ≡ none
unfolding find
find-Free b [] h = refl
find-Free b (c ∷ s) (h, hs) = rw (h, find-Free b s hs) refl

take-length : (s rest : Bytes) → take (length s) (s ++ rest) ≡ s
take-length [] rest = refl
take-length (c ∷ s) rest = ap (c ∷◌) (take-length s rest)

drop-length : (s : Bytes) (b : ℕ) (rest : Bytes) → drop (suc (length s)) (s ++ (b ∷ rest)) ≡ rest
drop-length [] b rest = refl
drop-length (c ∷ s) b rest = drop-length s b rest

-- The round of the loop on a text that is not empty, for the positions that it finds.
abbrev round : ℕ → Bytes → Map Bytes Bytes → Option ℕ → Option ℕ → Map Bytes Bytes
round fuel s m none amp = m
round fuel s m (some eq) none = insert (take eq s) (value s eq none) m
round fuel s m (some eq) (some amp) =
    parse fuel (drop (suc amp) s) (insert (take eq s) (value s eq (some amp)) m)

round_eq :
    (fuel : ℕ) (s : Bytes) (m : Map Bytes Bytes) (eq amp : Option ℕ)
    → elim eq [
      | none ↦ m
      | some e ↦ elim amp [
        | none ↦ insert (take e s) (value s e none) m
        | some a ↦ parse fuel (drop (suc a) s) (insert (take e s) (value s e (some a)) m)
      ]
    ]
      ≡ round fuel s m eq amp
round_eq fuel s m none amp = refl
round_eq fuel s m (some e) none = refl
round_eq fuel s m (some e) (some a) = refl

parse-round :
    (fuel : ℕ) (k rest : Bytes) (m : Map Bytes Bytes)
    → parse (suc fuel) (k ++ (b'=' ∷ rest)) m
      ≡ round fuel
          (k ++ (b'=' ∷ rest))
          m
          (find b'=' (k ++ (b'=' ∷ rest)))
          (find b'&' (k ++ (b'=' ∷ rest)))
unfolding parse
parse-round fuel [] rest m =
    round_eq fuel (b'=' ∷ rest) m (find b'=' (b'=' ∷ rest)) (find b'&' (b'=' ∷ rest))
parse-round fuel (c ∷ k) rest m =
    let s = c ∷ (k ++ (b'=' ∷ rest)) in round_eq fuel s m (find b'=' s) (find b'&' s)

Free-pair : (k v : Bytes) → IsPlain (k, v) → Free b'&' (k ++ (b'=' ∷ v))
Free-pair k v (h, hk, hv) = All-append (λ c. (c == b'&') ≡ false) k (b'=' ∷ v) hk (refl, hv)

parse-last :
    (fuel : ℕ) (k v : Bytes) (m : Map Bytes Bytes)
    → IsPlain (k, v)
    → parse (suc fuel) (k ++ (b'=' ∷ v)) m ≡ insert k v m
unfolding value
parse-last fuel k v m h =
    parse-round fuel k v m
    ∙ ap (λ e. round fuel text m e (find b'&' text)) (find-append b'=' k v refl h.0)
    ∙ ap (round fuel text m (some (length k))) (find-Free b'&' text (Free-pair k v h))
    ∙ rw (take-length k (b'=' ∷ v), drop-length k b'=' v) refl
  where
    text : Bytes
    text = k ++ (b'=' ∷ v)

length-value : (k v : Bytes) → length (k ++ (b'=' ∷ v)) - length k - 1 ≡ length v
length-value k v = rw (length-append k (b'=' ∷ v)) (omega arith)

value-pair :
    (k v rest : Bytes)
    → value (k ++ (b'=' ∷ (v ++ (b'&' ∷ rest)))) (length k) (some (length (k ++ (b'=' ∷ v)))) ≡ v
unfolding value
value-pair k v rest =
    rw (later, length-value k v, drop-length k b'=' (v ++ (b'&' ∷ rest)))
      (take-length v (b'&' ∷ rest))
  where
    later : ltb (length k) (length (k ++ (b'=' ∷ v))) ≡ true
    later = rw (length-append k (b'=' ∷ v)) (ground arith)

parse-more :
    (fuel : ℕ) (k v rest : Bytes) (m : Map Bytes Bytes)
    → IsPlain (k, v)
    → parse (suc fuel) (k ++ (b'=' ∷ (v ++ (b'&' ∷ rest)))) m ≡ parse fuel rest (insert k v m)
parse-more fuel k v rest m h =
    parse-round fuel k (v ++ (b'&' ∷ rest)) m
    ∙ ap (λ e. round fuel text m e (find b'&' text))
        (find-append b'=' k (v ++ (b'&' ∷ rest)) refl h.0)
    ∙ ap (round fuel text m (some (length k))) amp
    ∙ rw (dropped, take-length k (b'=' ∷ (v ++ (b'&' ∷ rest))), value-pair k v rest) refl
  where
    text : Bytes
    text = k ++ (b'=' ∷ (v ++ (b'&' ∷ rest)))

    whole : k ++ (b'=' ∷ (v ++ (b'&' ∷ rest))) ≡ (k ++ (b'=' ∷ v)) ++ (b'&' ∷ rest)
    whole = sym (append_assoc k (b'=' ∷ v) (b'&' ∷ rest))

    amp : find b'&' (k ++ (b'=' ∷ (v ++ (b'&' ∷ rest)))) ≡ some (length (k ++ (b'=' ∷ v)))
    amp = ap (find b'&') whole ∙ find-append b'&' (k ++ (b'=' ∷ v)) rest refl (Free-pair k v h)

    dropped : drop (suc (length (k ++ (b'=' ∷ v)))) (k ++ (b'=' ∷ (v ++ (b'&' ∷ rest)))) ≡ rest
    dropped =
        ap (drop (suc (length (k ++ (b'=' ∷ v))))) whole ∙ drop-length (k ++ (b'=' ∷ v)) b'&' rest

no_room : (k v : Bytes) → length (k ++ (b'=' ∷ v)) ≤ 0 → ⊥
no_room k v h = absurd (omega (arith, length-append k (b'=' ∷ v)))

room :
    (k v rest : Bytes) (fuel : ℕ)
    → length (k ++ (b'=' ∷ (v ++ (b'&' ∷ rest)))) ≤ suc fuel
    → length rest ≤ fuel
room k v rest fuel h =
    omega (arith, length-append k (b'=' ∷ (v ++ (b'&' ∷ rest))), length-append v (b'&' ∷ rest))

parse-print :
    (fuel : ℕ) (ps : List (Bytes × Bytes)) (m : Map Bytes Bytes)
    → All IsPlain ps
    → length (print ps) ≤ fuel
    → parse fuel (print ps) m ≡ insert_all ps m
unfolding parse
parse-print zero [] m h l = refl
parse-print (suc fuel) [] m h l = refl
parse-print zero ((k, v) ∷ []) m h l = absurd (no_room k v l)
parse-print zero ((k, v) ∷ p ∷ ps) m h l = absurd (no_room k (v ++ (b'&' ∷ print (p ∷ ps))) l)
parse-print (suc fuel) ((k, v) ∷ []) m (h, _) l = parse-last fuel k v m h
parse-print (suc fuel) ((k, v) ∷ p ∷ ps) m (h, hs) l =
    parse-more fuel k v (print (p ∷ ps)) m h
    ∙ parse-print fuel (p ∷ ps) (insert k v m) hs (room k v (print (p ∷ ps)) fuel l)

-- A query of keys and values that hold no separators is read as the map of its pairs, where the last
-- pair with a key decides.
pub parse_query-print :
    (ps : List (Bytes × Bytes)) → All IsPlain ps → parse_query (print ps) ≡ insert_all ps []
unfolding parse_query
parse_query-print ps h = parse-print (length (print ps)) ps [] h (omega arith)
