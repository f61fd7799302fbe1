-- ===== src/Reconcile/Reserved.antt =====
-- What src/reconcile.cpp guarantees for the numbers of new imports.
use autodngconverter.Base.{
  ℕ, zero, suc, ◌+◌, ◌≤◌, ◌<◌, ◌≡◌, true, Option, none, some, List, [], ◌∷◌, arith, All, Bytes, leb,
  leb→le, ◌==◌, if◌then◌else◌, if-Holds,
}
use native.Mathlib.Nat.{le_trans}
use autodngconverter.Reconcile.{
  Entry, allocated, Trace, Services, Progress, insert_placeholder, visit_numbered, number_of, visit,
  scan_dir, reserve, reconcile_library,
}

-- The number that was allocated last, 0 if there is none.
abbrev pub last : Trace → ℕ
last [] = 0
last (allocated id ∷ t) = id
last (_ ∷ t) = last t

abbrev or_zero : Option ℕ → ℕ
or_zero none = 0
or_zero (some n) = n

-- The number in the name of an entry, 0 if it has none.
abbrev pub numbered : Services → Entry → ℕ
numbered sv e = or_zero (number_of sv e)

positive : (id n : ℕ) → n < id → (id == 0) ≡ true → ⊥
positive id n h e = ground arith

module _ (sv : Services) where
  visit-max_n :
      (root : Bytes) (e : Entry) (o : Option ℕ) (p : Progress)
      → (or_zero o ≤ (visit sv root e o p).max_n) × (p.max_n ≤ (visit sv root e o p).max_n)
  unfolding visit visit_numbered insert_placeholder
  visit-max_n root e none p = (omega arith, omega arith)
  visit-max_n root e (some n) p = ground arith

  scan_dir-max_n :
      (root : Bytes) (es : List Entry) (p : Progress)
      → (p.max_n ≤ (scan_dir sv root es p).max_n)
        × All (λ e. numbered sv e ≤ (scan_dir sv root es p).max_n) es
  unfolding scan_dir
  scan_dir-max_n root [] p = (omega arith, tt)
  scan_dir-max_n root (e ∷ es) p =
      let q = visit sv root e (number_of sv e) p in
      let (a, b) = visit-max_n root e (number_of sv e) p in
      let (c, d) = scan_dir-max_n root es q in (le_trans b c, (le_trans a c, d))

  reserve-last :
      (k limit : ℕ) (t : Trace)
      → ((u : Trace) → last u < sv.allocate_sequence u)
      → limit ≤ last t + k
      → limit ≤ last (reserve sv k limit t)
  unfolding reserve
  reserve-last zero limit t g h = omega arith
  reserve-last (suc k) limit t g h =
      let id = sv.allocate_sequence t in
      let u = allocated id ∷ t in
      let more = g t in
      if-Holds (λ v. limit ≤ last v) (id == 0) u (if leb limit id then u else reserve sv k limit u)
        (λ e. absurd (positive id (last t) more e))
        (λ _.
          if-Holds (λ v. limit ≤ last v) (leb limit id) u (reserve sv k limit u)
            (λ e. leb→le limit id e) (λ _. reserve-last k limit u g (omega arith)))

All-le :
    (f : Entry → ℕ) (a b : ℕ) (es : List Entry)
    → a ≤ b
    → All (λ e. f e ≤ a) es
    → All (λ e. f e ≤ b) es
All-le f a b [] h hs = tt
All-le f a b (e ∷ es) h (l, ls) = (le_trans l h, All-le f a b es h ls)

-- If the store allocates ascending numbers, then after the reconciliation the number that was
-- allocated last is no less than the number of any output in the two directories, so that every later
-- number is new.
pub reconcile_library-last :
    (sv : Services) (output : Bytes) (outputs : List Entry) (archive : Bytes)
    (archived : List Entry) (t : Trace)
    → ((u : Trace) → last u < sv.allocate_sequence u)
    → let final = last (reconcile_library sv output outputs archive archived t).trace in
      All (λ e. numbered sv e ≤ final) outputs × All (λ e. numbered sv e ≤ final) archived
unfolding reconcile_library
reconcile_library-last sv output outputs archive archived t g =
    let p =
      scan_dir sv output outputs (record { max_n = 0; found = 0; inserted_count = 0; trace = t }) in
    let q = scan_dir sv archive archived p in
    let (_, a) =
      scan_dir-max_n sv output outputs
        (record { max_n = 0; found = 0; inserted_count = 0; trace = t }) in
    let (b, c) = scan_dir-max_n sv archive archived p in
    let l = reserve-last sv q.max_n q.max_n q.trace g (omega arith) in
    let final = last (reserve sv q.max_n q.max_n q.trace) in
    (
      All-le (numbered sv) p.max_n final outputs (le_trans b l) a,
      All-le (numbered sv) q.max_n final archived l c,
    )
