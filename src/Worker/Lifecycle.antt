-- ===== src/Worker/Lifecycle.antt =====
-- `Worker::Start` and `Worker::Stop` of src/worker.cpp: the threads that are started, and their end.
use autodngconverter.Base.{
  ℕ, zero, suc, ◌+◌, ◌≡◌, refl, Bool, true, false, List, [], ◌∷◌, ◌++◌, arith, if◌then◌else◌,
}

-- The threads that can be joined: the poller, the drain of the reconversions, and those of the files.
pub record Threads : Type 0 where
  pub poll : Bool
  pub reconvert : Bool
  pub workers : List Bool

unfoldable pub replicate : ℕ → List Bool
replicate zero = []
replicate (suc n) = true ∷ replicate n

unfoldable pub start : ℕ → Threads
start n = record { poll = true; reconvert = true; workers = replicate n }

pub data Step : Type 0 where
  set_stop : Step
  notified : Step
  joined : Step
  stopped_daemon : Step

-- A join of a thread that can be joined.
unfoldable pub join : Bool → List Step
join joinable = if joinable then joined ∷ [] else []

unfoldable pub join_all : List Bool → List Step
join_all [] = []
join_all (t ∷ ts) = join t ++ join_all ts

-- The steps in their order; there may be no daemon.
unfoldable pub stop : Bool → Threads → List Step
stop has_daemon ts =
    set_stop
    ∷ notified
    ∷ (join ts.poll
        ++ (join ts.reconvert
            ++ (join_all ts.workers ++ (if has_daemon then stopped_daemon ∷ [] else []))))

-- How many threads are joined in front of the stop of the daemon, and in all.
abbrev pub joins_before : List Step → ℕ
joins_before [] = 0
joins_before (joined ∷ t) = 1 + joins_before t
joins_before (stopped_daemon ∷ t) = 0
joins_before (s ∷ t) = joins_before t

joins_before-join_all :
    (n : ℕ) (rest : List Step)
    → joins_before (join_all (replicate n) ++ rest) ≡ n + joins_before rest
unfolding join_all replicate join
joins_before-join_all zero rest = omega arith
joins_before-join_all (suc n) rest = omega (arith, joins_before-join_all n rest)

joins_before-daemon : (b : Bool) → joins_before (if b then stopped_daemon ∷ [] else []) ≡ 0
joins_before-daemon true = refl
joins_before-daemon false = refl

-- Every thread that a start makes is joined before the daemon is stopped.
pub joins_before-stop :
    (n : ℕ) (has_daemon : Bool) → joins_before (stop has_daemon (start n)) ≡ n + 2
unfolding stop start join
joins_before-stop n has_daemon = ground (
  arith,
  joins_before-join_all n (if has_daemon then stopped_daemon ∷ [] else []),
  joins_before-daemon has_daemon,
)
