-- ===== src/Worker/Threads.antt =====
-- The threads of src/worker.cpp as interleavings: each step is one section under the lock.
use autodngconverter.Base.{ℕ, ◌≡◌, List, ◌∷◌, Bytes}
use autodngconverter.Config.{Config}
use autodngconverter.Pipeline.Types.{ReconversionJob, FastFingerprint}
use autodngconverter.Worker.State.{Impl, initial, queue_reconvert}
use autodngconverter.Worker.Poll.{DirEntry, scan, cleanup_seen_ttl, taken}
use autodngconverter.Worker.Process.{
  release, forget_failures, count_failure, cache_hit, cache_store,
}
use autodngconverter.Worker.Process.Sections.{
  IsConsistent, initial-IsConsistent, release-IsConsistent, forget_failures-IsConsistent,
  count_failure-IsConsistent, cache_hit-IsConsistent, cache_store-IsConsistent, scan-IsConsistent,
  cleanup-IsConsistent, taken-IsConsistent, queue_reconvert-IsConsistent,
}

pub data Step (cfg : Config) : Impl → Impl → Type 0 where
  scanned : (now : ℕ) (entries : List DirEntry) (i : Impl) → Step cfg i (scan cfg now entries i)
  cleaned : (now : ℕ) (i : Impl) → Step cfg i (cleanup_seen_ttl cfg now i)
  took :
      (path : Bytes) (rest : List Bytes) (i : Impl)
      → i.files ≡ path ∷ rest
      → Step cfg i (taken path rest i)
  released : (path : Bytes) (i : Impl) → Step cfg i (release path i)
  forgot : (path : Bytes) (i : Impl) → Step cfg i (forget_failures path i)
  failed : (path : Bytes) (i : Impl) → Step cfg i (count_failure cfg path i).1
  hit :
      (path : Bytes) (fp : FastFingerprint) (now : ℕ) (i : Impl)
      → Step cfg i (cache_hit path fp now i).1
  stored :
      (path : Bytes) (fp : FastFingerprint) (hash : Bytes) (now : ℕ) (i : Impl)
      → Step cfg i (cache_store path fp hash now i)
  queued : (id : ℕ) (job : ReconversionJob) (i : Impl) → Step cfg i (queue_reconvert id job i)

pub data Reach (cfg : Config) (i : Impl) : Impl → Type 0 where
  here : Reach cfg i i
  next : {j k : Impl} → Reach cfg i j → Step cfg j k → Reach cfg i k

pub Step-IsConsistent :
    {cfg : Config} {i j : Impl} → Step cfg i j → IsConsistent cfg i → IsConsistent cfg j
Step-IsConsistent (scanned now entries i) h = scan-IsConsistent now entries i h
Step-IsConsistent (cleaned now i) h = cleanup-IsConsistent now i h
Step-IsConsistent (took path rest i e) h = taken-IsConsistent path rest i e h
Step-IsConsistent (released path i) h = release-IsConsistent path i h
Step-IsConsistent (forgot path i) h = forget_failures-IsConsistent path i h
Step-IsConsistent (failed path i) h = count_failure-IsConsistent path i h
Step-IsConsistent (hit path fp now i) h = cache_hit-IsConsistent path fp now i h
Step-IsConsistent (stored path fp hash now i) h = cache_store-IsConsistent path fp hash now i h
Step-IsConsistent (queued id job i) h = queue_reconvert-IsConsistent id job i h

Reach-keeps : {cfg : Config} {i j : Impl} → IsConsistent cfg i → Reach cfg i j → IsConsistent cfg j
Reach-keeps h here = h
Reach-keeps h (next r s) = Step-IsConsistent s (Reach-keeps h r)

-- In every state that the threads reach, in any order of their sections, the depth counter is the
-- length of the queue, a failure count is positive and below the limit, and the fingerprint cache
-- holds at most 10,000 entries.
pub Reach-IsConsistent : {cfg : Config} {i : Impl} → Reach cfg initial i → IsConsistent cfg i
Reach-IsConsistent r = Reach-keeps initial-IsConsistent r
