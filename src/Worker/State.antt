-- ===== src/Worker/State.antt =====
-- `Worker::Impl` of src/worker.cpp, and the number of worker threads. The inflight set is a map to
-- the unit type. Clock readings are nanoseconds, counted from an hour or more before the start.
use autodngconverter.Base.{
  ℕ, ◌≡◌, Option, none, some, List, [], ◌∷◌, ◌++◌, arith, Bytes, codes, bytes_eq, Map, ℤ, pos,
  ltb_ℤ, leb_ℤ, if◌then◌else◌, ◌≤ℤ◌, refl, inl, inr, Bool-cases,
}
use autodngconverter.Pipeline.Types.{ReconversionJob}
use autodngconverter.Config.{Config}

-- `Impl::FpEntry`
pub record FpEntry : Type 0 where
  pub size : ℕ
  pub mtime : ℕ
  pub fnv : ℕ
  pub sha256 : Bytes
  pub last_seen : ℕ

pub record Impl : Type 0 where
  pub files : List Bytes
  pub reconverts : List ReconversionJob
  pub seen : Map Bytes ℕ
  pub fail_counts : Map Bytes ℕ
  pub inflight : Map Bytes (Unit {0})
  pub fp_cache : Map Bytes FpEntry
  pub queue_depth : ℕ
  pub active_workers : ℕ

abbrev pub initial : Impl
initial = record {
  files = [];
  reconverts = [];
  seen = [];
  fail_counts = [];
  inflight = [];
  fp_cache = [];
  queue_depth = 0;
  active_workers = 0;
}

-- `QueueReconvert`: the import id is not read.
unfoldable pub queue_reconvert : ℕ → ReconversionJob → Impl → Impl
queue_reconvert import_id job i = record i { reconverts = i.reconverts ++ job ∷ [] }

-- The number of threads that `Start` starts; `hardware` is `hardware_concurrency()`, and `engine` is
-- the name of the engine, if there is one.
auto_workers : ℤ → ℕ → ℤ
auto_workers configured hardware =
    if leb_ℤ configured (pos 0)
    then (if leb_ℤ (pos hardware) (pos 0) then pos 4 else pos hardware)
    else configured

engine_limit : Option Bytes → ℤ → ℤ
engine_limit none n = n
engine_limit (some name) n = if bytes_eq name (codes "adobedng") then pos 1 else n

unfoldable pub worker_count : Config → ℕ → Option Bytes → ℤ
unfolding auto_workers engine_limit
worker_count cfg hardware engine =
    let n = engine_limit engine (auto_workers cfg.max_converter_workers hardware) in
    if ltb_ℤ (pos 8) n then pos 8 else n

auto_workers-pos : (configured : ℤ) (hardware : ℕ) → pos 1 ≤ℤ auto_workers configured hardware
unfolding auto_workers
auto_workers-pos configured hardware = ground arith

engine_limit-pos : (engine : Option Bytes) (n : ℤ) → pos 1 ≤ℤ n → pos 1 ≤ℤ engine_limit engine n
unfolding engine_limit
engine_limit-pos none n h = h
engine_limit-pos (some name) n h = elim (Bool-cases (bytes_eq name (codes "adobedng"))) [
  | inl same ↦ rw same (omega arith)
  | inr other ↦ rw other h
]

capped :
    (n : ℤ)
    → pos 1 ≤ℤ n
    → (pos 1 ≤ℤ (if ltb_ℤ (pos 8) n then pos 8 else n))
      × ((if ltb_ℤ (pos 8) n then pos 8 else n) ≤ℤ pos 8)
capped n h = ground arith

-- Between one and eight worker threads are started, whatever is configured, and one if the engine
-- is named adobedng.
pub worker_count_bounds :
    (cfg : Config) (hardware : ℕ) (engine : Option Bytes)
    → (pos 1 ≤ℤ worker_count cfg hardware engine)
      × (worker_count cfg hardware engine ≤ℤ pos 8)
      × (engine ≡ some (codes "adobedng") → worker_count cfg hardware engine ≡ pos 1)
unfolding bytes_eq
worker_count_bounds cfg hardware engine =
    let n = auto_workers cfg.max_converter_workers hardware in
    let (lo, hi) =
      capped _ (engine_limit-pos engine n (auto_workers-pos cfg.max_converter_workers hardware)) in
    (unfold worker_count in lo, unfold worker_count in hi, λ e. rw e (unfold worker_count in refl))
