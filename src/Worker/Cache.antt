-- ===== src/Worker/Cache.antt =====
-- `evict_fp_cache` of src/worker.cpp.
use autodngconverter.Base.{
  ℕ, zero, suc, ◌+◌, ◌≤◌, ◌<◌, ◌≡◌, refl, true, false, [], ◌∷◌, arith, All, Bytes,
  bytes_eq_instance, bytes_eq_refl, length, erase, contains, length-erase_lt, Map, ltb,
  if◌then◌else◌,
}
use native.Mathlib.Nat.{le_trans}
use autodngconverter.Worker.State.{FpEntry, Impl}

abbrev pub earlier : Bytes × FpEntry → Bytes × FpEntry → Bytes × FpEntry
earlier e best = if ltb e.1.last_seen best.1.last_seen then e else best

-- The scan for the least recently seen entry, from the first one on.
unfoldable pub oldest : Bytes × FpEntry → Map Bytes FpEntry → Bytes × FpEntry
oldest best [] = best
oldest best (e ∷ m) = oldest (earlier e best) m

pub erase_oldest : Map Bytes FpEntry → Map Bytes FpEntry
unfolding oldest erase
erase_oldest [] = []
erase_oldest (e ∷ m) = erase (oldest e m).0 (e ∷ m)

-- `while (size > cap)`, with fuel.
unfoldable pub evict : ℕ → ℕ → Map Bytes FpEntry → Map Bytes FpEntry
unfolding erase_oldest
evict cap zero m = m
evict cap (suc fuel) m = elim (ltb cap (length m)) [
  | true ↦ evict cap fuel (erase_oldest m)
  | false ↦ m
]

abbrev pub max_entries : ℕ
max_entries = 10000

unfoldable pub evict_fp_cache : Impl → Impl
unfolding evict
evict_fp_cache i = record i { fp_cache = evict max_entries (length i.fp_cache) i.fp_cache }

contains-oldest :
    (m : Map Bytes FpEntry) (best : Bytes × FpEntry) → contains (oldest best m).0 (best ∷ m) ≡ true
unfolding oldest contains
contains-oldest [] best = ground (arith, bytes_eq_refl best.0)
contains-oldest (e ∷ m) best = ground (arith, contains-oldest m best, contains-oldest m e)

length-erase_oldest :
    (m : Map Bytes FpEntry) (n : ℕ) → n < length m → length (erase_oldest m) < length m
unfolding erase_oldest
length-erase_oldest [] n h = omega arith
length-erase_oldest (e ∷ m) n h = length-erase_lt (oldest e m).0 (e ∷ m) (contains-oldest m e)

length-evict :
    (cap fuel : ℕ) (m : Map Bytes FpEntry) → length m ≤ cap + fuel → length (evict cap fuel m) ≤ cap
unfolding evict
length-evict cap zero m h = omega arith
length-evict cap (suc fuel) m h =
    ground (arith, length-erase_oldest m cap, length-evict cap fuel (erase_oldest m))

-- After an eviction the fingerprint cache holds at most 10,000 entries, however many it held.
pub length-evict_fp_cache : (i : Impl) → length (evict_fp_cache i).fp_cache ≤ 10000
unfolding evict_fp_cache
length-evict_fp_cache i = length-evict max_entries (length i.fp_cache) i.fp_cache (omega arith)

-- Every entry of the map was seen at this time or later.
abbrev pub SeenSince : ℕ → Map Bytes FpEntry → Type 0
SeenSince t = All (λ e. t ≤ e.1.last_seen)

earlier-le :
    (e best : Bytes × FpEntry)
    → ((earlier e best).1.last_seen ≤ e.1.last_seen)
      × ((earlier e best).1.last_seen ≤ best.1.last_seen)
earlier-le e best = ground arith

oldest-le :
    (m : Map Bytes FpEntry) (best : Bytes × FpEntry)
    → ((oldest best m).1.last_seen ≤ best.1.last_seen) × SeenSince (oldest best m).1.last_seen m
unfolding oldest
oldest-le [] best = (omega arith, tt)
oldest-le (e ∷ m) best =
    let (a, b) = oldest-le m (earlier e best) in
    let (l, r) = earlier-le e best in (le_trans a r, (le_trans a l, b))

-- The entry that an eviction removes is one that no entry of the cache was seen before.
pub SeenSince-oldest :
    (e : Bytes × FpEntry) (m : Map Bytes FpEntry)
    → SeenSince (oldest e m).1.last_seen (e ∷ m)
      × (erase_oldest (e ∷ m) ≡ erase (oldest e m).0 (e ∷ m))
unfolding erase_oldest
SeenSince-oldest e m = ((oldest-le m e), refl)
