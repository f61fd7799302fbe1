-- ===== src/Worker/Process/Sections.antt =====
-- Invariants of the shared state of src/worker.cpp, and that every section under the lock keeps them.
use autodngconverter.Base.{
  ℕ, ◌+◌, ◌≤◌, ◌≡◌, refl, ap, false, Option, none, some, List, [], ◌∷◌, arith, Bytes,
  bytes_eq_instance, length, length-append, lookup, insert, erase, contains, lookup-erase,
  lookup-insert, Map, pos, leb_ℤ, if◌then◌else◌, Bool-cases, inl, inr, length-erase_lt,
  contains-some,
}
use native.Mathlib.Nat.{le_trans}
use autodngconverter.Config.{Config}
use autodngconverter.Pipeline.Types.{ReconversionJob, FastFingerprint, fingerprint_eq}
use autodngconverter.Worker.State.{FpEntry, Impl, initial, queue_reconvert}
use autodngconverter.Worker.Poll.{
  DirEntry, eligible, taken, enqueue, poll_entry, scan, cleanup_seen_ttl,
}
use autodngconverter.Worker.Cache.{evict_fp_cache, length-evict_fp_cache}
use autodngconverter.Worker.Process.{
  release, forget_failures, count_failure, entry_print, use_entry, cache_hit, cache_store, or_zero,
}

-- The depth counter is the length of the queue, every failure count is below the limit and not 0,
-- and the fingerprint cache is within its bound.
pub record IsConsistent (cfg : Config) (i : Impl) : Type 0 where
  pub depth : i.queue_depth ≡ length i.files
  pub counts :
      (path : Bytes) (n : ℕ)
      → lookup path i.fail_counts ≡ some n
      → (1 ≤ n) × (leb_ℤ cfg.dead_letter_max_retries (pos n) ≡ false)
  pub cached : length i.fp_cache ≤ 10000

-- The new counts, whether the file is given up or not.
count_kept :
    (cfg : Config) (path : Bytes) (m : Map Bytes ℕ) (count : ℕ) (p : Bytes) (n : ℕ)
    → 1 ≤ count
    → ((q : Bytes) (k : ℕ)
        → lookup q m ≡ some k
        → (1 ≤ k) × (leb_ℤ cfg.dead_letter_max_retries (pos k) ≡ false))
    → lookup p (
        if leb_ℤ cfg.dead_letter_max_retries (pos count) then erase path m else insert path count m)
      ≡ some n
    → (1 ≤ n) × (leb_ℤ cfg.dead_letter_max_retries (pos n) ≡ false)
count_kept cfg path m count p n l h =
    elim (Bool-cases (leb_ℤ cfg.dead_letter_max_retries (pos count))) [
      | inl out ↦ rw out (λ e. ground (arith, h p n, lookup-erase path p m))
      | inr stays ↦ rw stays (λ e. ground (arith, h p n, lookup-insert path p count m))
    ]

length-seen_again :
    (path : Bytes) (e f : FpEntry) (m : Map Bytes FpEntry)
    → lookup path m ≡ some e
    → length (insert path f m) ≤ length m
unfolding insert
length-seen_again path e f m h = length-erase_lt path m (contains-some path e m h)

module _ {cfg : Config} where
  pub initial-IsConsistent : IsConsistent cfg initial
  unfolding lookup
  initial-IsConsistent = record { depth = refl; counts = λ path n e. cc; cached = omega arith }

  pub release-IsConsistent :
      (path : Bytes) (i : Impl) → IsConsistent cfg i → IsConsistent cfg (release path i)
  unfolding release
  release-IsConsistent path i h = record { depth = h.depth; counts = h.counts; cached = h.cached }

  pub forget_failures-IsConsistent :
      (path : Bytes) (i : Impl) → IsConsistent cfg i → IsConsistent cfg (forget_failures path i)
  unfolding forget_failures
  forget_failures-IsConsistent path i h = record {
    depth = h.depth;
    counts = λ p n e. ground (arith, h.counts p n, lookup-erase path p i.fail_counts);
    cached = h.cached;
  }

  pub count_failure-IsConsistent :
      (path : Bytes) (i : Impl) → IsConsistent cfg i → IsConsistent cfg (count_failure cfg path i).1
  count_failure-IsConsistent path i h = record {
    depth = unfold count_failure in h.depth;
    counts = λ p n e.
        count_kept cfg path i.fail_counts (or_zero (lookup path i.fail_counts) + 1) p n
          (omega arith) h.counts (unfold count_failure in e);
    cached = unfold count_failure in h.cached;
  }

  use_entry-IsConsistent :
      (path : Bytes) (fp : FastFingerprint) (now : ℕ) (i : Impl) (o : Option FpEntry)
      → lookup path i.fp_cache ≡ o
      → IsConsistent cfg i
      → IsConsistent cfg (use_entry path fp now i o).1
  unfolding use_entry
  use_entry-IsConsistent path fp now i none e h = h
  use_entry-IsConsistent path fp now i (some f) e h =
      elim (Bool-cases (fingerprint_eq (entry_print f) fp)) [
        | inl same ↦ rw same (record {
          depth = h.depth;
          counts = h.counts;
          cached =
              le_trans (length-seen_again path f (record f { last_seen = now }) i.fp_cache e)
                h.cached;
        })
        | inr other ↦ rw other h
      ]

  pub cache_hit-IsConsistent :
      (path : Bytes) (fp : FastFingerprint) (now : ℕ) (i : Impl)
      → IsConsistent cfg i
      → IsConsistent cfg (cache_hit path fp now i).1
  cache_hit-IsConsistent path fp now i h =
      unfold cache_hit in use_entry-IsConsistent path fp now i (lookup path i.fp_cache) refl h

  pub cache_store-IsConsistent :
      (path : Bytes) (fp : FastFingerprint) (hash : Bytes) (now : ℕ) (i : Impl)
      → IsConsistent cfg i
      → IsConsistent cfg (cache_store path fp hash now i)
  unfolding cache_store evict_fp_cache
  cache_store-IsConsistent path fp hash now i h = record {
    depth = h.depth;
    counts = h.counts;
    cached = length-evict_fp_cache (record i {
      fp_cache =
          insert path
            (record {
              size = fp.size;
              mtime = fp.mtime;
              fnv = fp.fnv1a_4k;
              sha256 = hash;
              last_seen = now;
            })
            i.fp_cache;
    });
  }

  pub enqueue-IsConsistent :
      (now : ℕ) (path : Bytes) (i : Impl)
      → IsConsistent cfg i
      → IsConsistent cfg (enqueue now path i)
  unfolding enqueue
  enqueue-IsConsistent now path i h = elim (Bool-cases (contains path i.inflight)) [
    | inl owned ↦ rw owned h
    | inr free ↦ rw free (elim (Bool-cases (contains path i.seen)) [
      | inl known ↦ rw known h
      | inr fresh ↦ rw fresh (record {
        depth = omega (arith, h.depth, length-append i.files (path ∷ []));
        counts = h.counts;
        cached = h.cached;
      })
    ])
  ]

  pub scan-IsConsistent :
      (now : ℕ) (entries : List DirEntry) (i : Impl)
      → IsConsistent cfg i
      → IsConsistent cfg (scan cfg now entries i)
  unfolding scan
  scan-IsConsistent now [] i h = h
  scan-IsConsistent now (e ∷ es) i h =
      scan-IsConsistent now es _ (elim (Bool-cases (eligible cfg e)) [
        | inl queued ↦ unfold poll_entry in rw queued (enqueue-IsConsistent now e.path i h)
        | inr skipped ↦ unfold poll_entry in rw skipped h
      ])

  pub cleanup-IsConsistent :
      (now : ℕ) (i : Impl) → IsConsistent cfg i → IsConsistent cfg (cleanup_seen_ttl cfg now i)
  unfolding cleanup_seen_ttl
  cleanup-IsConsistent now i h = record { depth = h.depth; counts = h.counts; cached = h.cached }

  pub taken-IsConsistent :
      (path : Bytes) (rest : List Bytes) (i : Impl)
      → i.files ≡ path ∷ rest
      → IsConsistent cfg i
      → IsConsistent cfg (taken path rest i)
  unfolding taken
  taken-IsConsistent path rest i e h = record {
    depth = omega (arith, h.depth, ap (length {A = Bytes}) e);
    counts = h.counts;
    cached = h.cached;
  }

  pub queue_reconvert-IsConsistent :
      (id : ℕ) (job : ReconversionJob) (i : Impl)
      → IsConsistent cfg i
      → IsConsistent cfg (queue_reconvert id job i)
  unfolding queue_reconvert
  queue_reconvert-IsConsistent id job i h = record {
    depth = h.depth;
    counts = h.counts;
    cached = h.cached;
  }
