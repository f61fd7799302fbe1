-- ===== src/Metrics.antt =====
-- src/metrics.h and src/metrics.cpp. A duration is a whole number of microseconds, where the
-- code has a `double` of seconds. A sum of `double` values is kept as its summands, newest first; how
-- their rounded sum is printed is a parameter.
pub mod Counts
mod Tests
use autodngconverter.Base.{
  ℕ, ◌+◌, zero, suc, Bool, true, false, List, [], ◌∷◌, ◌++◌, Bytes, codes, bytes_eq, ltb, to_string,
  if◌then◌else◌,
}

-- One histogram: its ten buckets, its sum and its count.
pub record Histogram : Type 0 where
  pub buckets : List ℕ
  pub sum : List ℕ
  pub count : ℕ

abbrev pub empty_histogram : Histogram
empty_histogram = record {
  buckets = 0 ∷ 0 ∷ 0 ∷ 0 ∷ 0 ∷ 0 ∷ 0 ∷ 0 ∷ 0 ∷ 0 ∷ [];
  sum = [];
  count = 0;
}

abbrev pub Edges : Type 0
Edges = List ℕ

-- The edges of the conversions, of the fingerprints and database calls, and of the other stages.
abbrev pub conversion_edges : Edges
conversion_edges =
    1000000 ∷ 2000000 ∷ 5000000 ∷ 10000000 ∷ 20000000 ∷ 30000000 ∷ 60000000 ∷ 120000000 ∷ 300000000
    ∷ []

abbrev pub short_edges : Edges
short_edges = 1000 ∷ 2000 ∷ 5000 ∷ 10000 ∷ 20000 ∷ 50000 ∷ 100000 ∷ 200000 ∷ 500000 ∷ []

abbrev pub stage_edges : Edges
stage_edges = 10000 ∷ 20000 ∷ 50000 ∷ 100000 ∷ 200000 ∷ 500000 ∷ 1000000 ∷ 2000000 ∷ 5000000 ∷ []

-- The loop over the edges, and the increment of the bucket it stops at.
unfoldable pub bucket : Edges → ℕ → ℕ
bucket [] d = 0
bucket (e ∷ es) d = let rest = bucket es d in if ltb e d then suc rest else 0

unfoldable pub bump : ℕ → List ℕ → List ℕ
bump i [] = []
bump zero (b ∷ bs) = (1 + b) ∷ bs
bump (suc i) (b ∷ bs) = b ∷ bump i bs

unfoldable pub observe : Edges → ℕ → Histogram → Histogram
observe es d h = record {
  buckets = bump (bucket es d) h.buckets;
  sum = d ∷ h.sum;
  count = h.count + 1;
}

pub record Metrics : Type 0 where
  pub files_detected_total : ℕ
  pub conversions_completed : ℕ
  pub conversions_failed : ℕ
  pub dur : Histogram
  pub queue_depth : ℕ
  pub db_size_bytes : ℕ
  pub fp : Histogram
  pub hash : Histogram
  pub exif : Histogram
  pub db : Histogram
  pub arch : Histogram

abbrev pub initial : Metrics
initial = record {
  files_detected_total = 0;
  conversions_completed = 0;
  conversions_failed = 0;
  dur = empty_histogram;
  queue_depth = 0;
  db_size_bytes = 0;
  fp = empty_histogram;
  hash = empty_histogram;
  exif = empty_histogram;
  db = empty_histogram;
  arch = empty_histogram;
}

-- The operations, each under the mutex: what a call of one does to the metrics.
pub data Operation : Type 0 where
  inc_files_detected : ℕ → Operation
  inc_conversions_completed : Bytes → ℕ → Operation
  observe_conversion_duration : ℕ → Operation
  set_queue_depth : ℕ → Operation
  set_db_size_bytes : ℕ → Operation
  observe_fast_fingerprint_duration : ℕ → Operation
  observe_hash_duration : ℕ → Operation
  observe_exif_duration : ℕ → Operation
  observe_db_duration : ℕ → Operation
  observe_archive_duration : ℕ → Operation

unfoldable pub apply : Operation → Metrics → Metrics
unfolding observe
apply (inc_files_detected n) m = record m { files_detected_total = m.files_detected_total + n }
apply (inc_conversions_completed status n) m =
    if bytes_eq status (codes "failed")
    then record m { conversions_failed = m.conversions_failed + n }
    else record m { conversions_completed = m.conversions_completed + n }
apply (observe_conversion_duration d) m = record m { dur = observe conversion_edges d m.dur }
apply (set_queue_depth n) m = record m { queue_depth = n }
apply (set_db_size_bytes n) m = record m { db_size_bytes = n }
apply (observe_fast_fingerprint_duration d) m = record m { fp = observe short_edges d m.fp }
apply (observe_hash_duration d) m = record m { hash = observe stage_edges d m.hash }
apply (observe_exif_duration d) m = record m { exif = observe stage_edges d m.exif }
apply (observe_db_duration d) m = record m { db = observe short_edges d m.db }
apply (observe_archive_duration d) m = record m { arch = observe stage_edges d m.arch }

-- The metrics after a history of calls, newest call first.
unfoldable pub after : List Operation → Metrics
after [] = initial
after (op ∷ ops) = apply op (after ops)

-- The labels that the text has on every histogram.
abbrev pub labels : List Bytes
labels =
    codes "1"
    ∷ codes "2"
    ∷ codes "5"
    ∷ codes "10"
    ∷ codes "20"
    ∷ codes "30"
    ∷ codes "60"
    ∷ codes "120"
    ∷ codes "300"
    ∷ codes "+Inf"
    ∷ []

-- The cumulative counts that the loop over the buckets prints, from `cum` on.
unfoldable pub cumulative : ℕ → List ℕ → List ℕ
cumulative cum [] = []
cumulative cum (b ∷ bs) = (cum + b) ∷ cumulative (cum + b) bs

abbrev pub line : Bytes → Bytes
line s = s ++ (b'\n' ∷ [])

unfoldable pub bucket_lines : Bytes → List Bytes → List ℕ → Bytes
bucket_lines name [] cs = []
bucket_lines name (l ∷ ls) [] = []
bucket_lines name (l ∷ ls) (c ∷ cs) =
    line (name ++ codes "_bucket{le=\"" ++ l ++ codes "\"} " ++ to_string c)
    ++ bucket_lines name ls cs

unfoldable pub render_histogram : (List ℕ → Bytes) → Bytes → Histogram → Bytes
unfolding cumulative bucket_lines
render_histogram show name h =
    line (codes "# TYPE " ++ name ++ codes " histogram")
    ++ bucket_lines name labels (cumulative 0 h.buckets)
    ++ line (name ++ codes "_sum " ++ show h.sum)
    ++ line (name ++ codes "_count " ++ to_string h.count)

abbrev counter : Bytes → Bytes → ℕ → Bytes
counter type name n =
    line (codes "# TYPE " ++ name ++ codes " " ++ type) ++ line (name ++ codes " " ++ to_string n)

unfoldable pub render : (List ℕ → Bytes) → Metrics → Bytes
unfolding render_histogram
render show m =
    counter (codes "counter") (codes "rawimport_files_detected_total") m.files_detected_total
    ++ line (codes "# TYPE rawimport_conversions_completed_total counter")
    ++ line (
        codes "rawimport_conversions_completed_total{status=\"completed\"} "
        ++ to_string m.conversions_completed)
    ++ line (
        codes "rawimport_conversions_completed_total{status=\"failed\"} "
        ++ to_string m.conversions_failed)
    ++ render_histogram show (codes "rawimport_conversion_duration_seconds") m.dur
    ++ counter (codes "gauge") (codes "rawimport_queue_depth") m.queue_depth
    ++ counter (codes "gauge") (codes "rawimport_db_size_bytes") m.db_size_bytes
    ++ render_histogram show (codes "rawimport_fast_fingerprint_duration_seconds") m.fp
    ++ render_histogram show (codes "rawimport_hash_duration_seconds") m.hash
    ++ render_histogram show (codes "rawimport_exif_duration_seconds") m.exif
    ++ render_histogram show (codes "rawimport_db_duration_seconds") m.db
    ++ render_histogram show (codes "rawimport_archive_duration_seconds") m.arch
