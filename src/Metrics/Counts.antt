-- ===== src/Metrics/Counts.antt =====
-- What a histogram of src/metrics.cpp counts.
use native.Mathlib.Nat.{add_assoc}
use autodngconverter.Base.{
  ℕ, zero, suc, ◌+◌, ◌≤◌, ◌≡◌, refl, ap, true, not, Option, none, some, List, [], ◌∷◌, arith,
  length, leb, leb→le, ltb, if◌then◌else◌, Bool-cases, inl, inr, ◌∙◌, sym, codes, bytes_eq,
}
use autodngconverter.Metrics.{
  Histogram, empty_histogram, Edges, bucket, bump, observe, Metrics, apply, after, cumulative,
  conversion_edges, short_edges, stage_edges, Operation, inc_files_detected,
  inc_conversions_completed, observe_conversion_duration, set_queue_depth, set_db_size_bytes,
  observe_fast_fingerprint_duration, observe_hash_duration, observe_exif_duration,
  observe_db_duration, observe_archive_duration,
}

-- The observations that are at most the bound.
abbrev pub at_most : ℕ → List ℕ → ℕ
at_most e [] = 0
at_most e (d ∷ ds) = (if leb d e then 1 else 0) + at_most e ds

-- The edges ascend from the bound on.
abbrev pub Ascends : ℕ → Edges → Type 0
Ascends e [] = Unit
Ascends e (f ∷ es) = (e ≤ f) × Ascends f es

-- The cumulative counts that are expected of a series of observations: one for each edge, and the
-- number of all observations for +Inf.
abbrev pub expected : Edges → List ℕ → List ℕ
expected [] ds = length ds ∷ []
expected (e ∷ es) ds = at_most e ds ∷ expected es ds

-- The histogram has one bucket more than edges, its cumulative counts are what is expected of the
-- observations, and the observations are the summands of its sum, in their order.
abbrev pub IsCounted : Edges → List ℕ → Histogram → Type 0
IsCounted es ds h =
    (length h.buckets ≡ 1 + length es)
    × (cumulative 0 h.buckets ≡ expected es ds)
    × (h.sum ≡ ds)
    × (h.count ≡ length ds)

-- What one more observation adds to the cumulative counts.
abbrev add : Edges → ℕ → List ℕ → List ℕ
add es d [] = []
add [] d (c ∷ cs) = (1 + c) ∷ cs
add (e ∷ es) d (c ∷ cs) = ((if leb d e then 1 else 0) + c) ∷ add es d cs

expected-add : (es : Edges) (d : ℕ) (ds : List ℕ) → expected es (d ∷ ds) ≡ add es d (expected es ds)
expected-add [] d ds = ap (λ n. n ∷ []) (omega arith)
expected-add (e ∷ es) d ds = ap (at_most e (d ∷ ds) ∷◌) (expected-add es d ds)

length-bump : (i : ℕ) (bs : List ℕ) → length (bump i bs) ≡ length bs
unfolding bump
length-bump zero [] = refl
length-bump (suc i) [] = refl
length-bump zero (b ∷ bs) = refl
length-bump (suc i) (b ∷ bs) = ap suc (length-bump i bs)

cons-eq : {a b : ℕ} {xs ys : List ℕ} → a ≡ b → xs ≡ ys → (a ∷ xs) ≡ (b ∷ ys)
cons-eq h k = cc

shift : (c b : ℕ) → c + (1 + b) ≡ 1 + (c + b)
shift c b = omega arith

leb-true : (a b : ℕ) → a ≤ b → leb a b ≡ true
leb-true a b h = ground arith

ltb-leb : (a b : ℕ) → ltb b a ≡ not (leb a b)
ltb-leb a b = ground arith

-- Below all edges, an observation adds one to every cumulative count.
cumulative-above :
    (e d c : ℕ) (es : Edges) (bs : List ℕ)
    → d ≤ e
    → Ascends e es
    → length bs ≡ 1 + length es
    → cumulative (1 + c) bs ≡ add es d (cumulative c bs)
unfolding cumulative
cumulative-above e d c es [] h a k = absurd (omega arith)
cumulative-above e d c [] (b ∷ []) h a k = ap (λ n. n ∷ []) (omega arith)
cumulative-above e d c [] (b ∷ b' ∷ bs) h a k = absurd (omega arith)
cumulative-above e d c (f ∷ es) (b ∷ bs) h (a, a') k = rw (leb-true d f (omega arith)) (
    cons-eq (omega arith)
      (rw (add_assoc 1 c b) (cumulative-above f d (c + b) es bs (omega arith) a' (omega arith))))

cumulative-bump :
    (e d c : ℕ) (es : Edges) (bs : List ℕ)
    → Ascends e es
    → length bs ≡ 1 + length es
    → cumulative c (bump (bucket es d) bs) ≡ add es d (cumulative c bs)
unfolding cumulative bump bucket
cumulative-bump e d c es [] a k = absurd (omega arith)
cumulative-bump e d c [] (b ∷ []) a k = ap (λ n. n ∷ []) (omega arith)
cumulative-bump e d c [] (b ∷ b' ∷ bs) a k = absurd (omega arith)
cumulative-bump e d c (f ∷ es) (b ∷ bs) (a, a') k = elim (Bool-cases (leb d f)) [
  | inl h ↦
      rw (ltb-leb d f, h)
        (cons-eq (omega arith)
          (rw (shift c b) (cumulative-above f d (c + b) es bs (leb→le d f h) a' (omega arith))))
  | inr h ↦
      rw (ltb-leb d f, h)
        (cons-eq (omega arith) (cumulative-bump f d (c + b) es bs a' (omega arith)))
]

observe-IsCounted :
    (es : Edges) (d : ℕ) (ds : List ℕ) (h : Histogram)
    → Ascends 0 es
    → IsCounted es ds h
    → IsCounted es (d ∷ ds) (observe es d h)
unfolding observe
observe-IsCounted es d ds h a (l, c, s, n) = (
  length-bump (bucket es d) h.buckets ∙ l,
  cumulative-bump 0 d 0 es h.buckets a l ∙ ap (add es d) c ∙ sym (expected-add es d ds),
  ap (d ∷◌) s,
  rw (n) (omega arith),
)

-- The durations that a history reports of one stage.
abbrev pub durations : (Operation → Option ℕ) → List Operation → List ℕ
durations stage [] = []
durations stage (op ∷ ops) =
    let rest = durations stage ops in elim (stage op) [ none ↦ rest | some d ↦ d ∷ rest ]

abbrev pub conversion : Operation → Option ℕ
conversion (observe_conversion_duration d) = some d
conversion _ = none

abbrev pub fingerprint : Operation → Option ℕ
fingerprint (observe_fast_fingerprint_duration d) = some d
fingerprint _ = none

abbrev pub hashing : Operation → Option ℕ
hashing (observe_hash_duration d) = some d
hashing _ = none

abbrev pub exif_read : Operation → Option ℕ
exif_read (observe_exif_duration d) = some d
exif_read _ = none

abbrev pub db_call : Operation → Option ℕ
db_call (observe_db_duration d) = some d
db_call _ = none

abbrev pub archiving : Operation → Option ℕ
archiving (observe_archive_duration d) = some d
archiving _ = none

abbrev pub Counted : List Operation → Metrics → Type 0
Counted ops m =
    IsCounted conversion_edges (durations conversion ops) m.dur
    × IsCounted short_edges (durations fingerprint ops) m.fp
    × IsCounted stage_edges (durations hashing ops) m.hash
    × IsCounted stage_edges (durations exif_read ops) m.exif
    × IsCounted short_edges (durations db_call ops) m.db
    × IsCounted stage_edges (durations archiving ops) m.arch

conversion-Ascends : Ascends 0 conversion_edges
conversion-Ascends = ground arith

short-Ascends : Ascends 0 short_edges
short-Ascends = ground arith

stage-Ascends : Ascends 0 stage_edges
stage-Ascends = ground arith

apply-Counted :
    (op : Operation) (ops : List Operation) (m : Metrics)
    → Counted ops m
    → Counted (op ∷ ops) (apply op m)
unfolding apply
apply-Counted (inc_files_detected n) ops m h = h
apply-Counted (inc_conversions_completed status n) ops m h =
    elim (Bool-cases (bytes_eq status (codes "failed"))) [ inl k ↦ rw (k) h | inr k ↦ rw (k) h ]
apply-Counted (observe_conversion_duration d) ops m (a, b, c, e, f, g) =
    (observe-IsCounted conversion_edges d _ m.dur conversion-Ascends a, b, c, e, f, g)
apply-Counted (set_queue_depth n) ops m h = h
apply-Counted (set_db_size_bytes n) ops m h = h
apply-Counted (observe_fast_fingerprint_duration d) ops m (a, b, c, e, f, g) =
    (a, observe-IsCounted short_edges d _ m.fp short-Ascends b, c, e, f, g)
apply-Counted (observe_hash_duration d) ops m (a, b, c, e, f, g) =
    (a, b, observe-IsCounted stage_edges d _ m.hash stage-Ascends c, e, f, g)
apply-Counted (observe_exif_duration d) ops m (a, b, c, e, f, g) =
    (a, b, c, observe-IsCounted stage_edges d _ m.exif stage-Ascends e, f, g)
apply-Counted (observe_db_duration d) ops m (a, b, c, e, f, g) =
    (a, b, c, e, observe-IsCounted short_edges d _ m.db short-Ascends f, g)
apply-Counted (observe_archive_duration d) ops m (a, b, c, e, f, g) =
    (a, b, c, e, f, observe-IsCounted stage_edges d _ m.arch stage-Ascends g)

-- After any calls, the buckets of each of the six histograms add up, for every edge by which its stage
-- counts, to how many durations of the stage were at most the edge, and all buckets to the number of all
-- of them; their sum is made of these durations in their order, and their count is their number.
pub after-Counted : (ops : List Operation) → Counted ops (after ops)
unfolding after cumulative
after-Counted [] = (none_yet, none_yet, none_yet, none_yet, none_yet, none_yet)
  where
    none_yet : IsCounted stage_edges [] empty_histogram
    none_yet = (refl, refl, refl, refl)
after-Counted (op ∷ ops) = apply-Counted op ops (after ops) (after-Counted ops)
