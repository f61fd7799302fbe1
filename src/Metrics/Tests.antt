-- ===== src/Metrics/Tests.antt =====
-- Tests of src/metrics.cpp, and the theorem at a concrete history.
use autodngconverter.Base.{◌≡◌, refl, List, [], ◌∷◌}
use autodngconverter.Metrics.{
  apply, after, observe, bump, bucket, cumulative, Operation, observe_hash_duration,
  set_queue_depth,
}
use autodngconverter.Metrics.Counts.{Counted, after-Counted}

abbrev history : List Operation
history = observe_hash_duration 20000 ∷ set_queue_depth 3 ∷ observe_hash_duration 6000000 ∷ []

hash_buckets :
    cumulative 0 (after history).hash.buckets ≡ 0 ∷ 1 ∷ 1 ∷ 1 ∷ 1 ∷ 1 ∷ 1 ∷ 1 ∷ 1 ∷ 2 ∷ []
unfolding after apply observe bump bucket cumulative
hash_buckets = refl

after-Counted_example : Counted history (after history)
after-Counted_example = after-Counted history
