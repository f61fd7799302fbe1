-- ===== src/Service.antt =====
-- src/main.cpp: the start of the parts, the wait for a signal, and the shutdown. What the parts answer is
-- given; the flag of the signal answers by the number of times that it has been read.
pub mod Order
mod Tests
use autodngconverter.Base.{
  ℕ, zero, suc, ◌+◌, Bool, true, false, not, Option, none, some, List, [], ◌∷◌, ◌++◌, Bytes, codes,
  is_empty, if◌then◌else◌,
}
use autodngconverter.Config.{Config}

-- What `main` does, step by step.
pub data Step : Type 0 where
  loaded_dotenv : Step
  loaded_config : Step
  opened_store : Bool → Step
  migrated : Bytes → Bool → Step
  reconciled : Step
  made_converter : Step
  checked_converter : Bool → Step
  made_embedder : Step
  made_rotation : Step
  made_api : Step
  made_worker : Step
  set_signals : Step
  started_worker : Step
  ran_api : Step
  read_stop : Bool → Step
  slept : Step
  stopped_api : Step
  stopped_worker : Step
  stopped_rotation : Step
  closed_store : Step
  deleted_converter : Step

-- The steps, newest first.
abbrev pub Trace : Type 0
Trace = List Step

pub record System : Type 0 where
  pub open_store : Bool
  pub migrate : Bytes → Bool
  pub available : Bool
  pub stop : ℕ → Bool
  -- Whether the stop of a part returns: each joins a thread.
  pub api_stops : Bool
  pub worker_stops : Bool
  pub rotation_stops : Bool

unfoldable pub migrations_dir : Config → Bytes
migrations_dir cfg =
    if is_empty cfg.db_dir then codes "migrations" else cfg.db_dir ++ codes "/migrations"

-- The parts are made and started.
unfoldable pub start_parts : Bool → Trace → Trace
start_parts available t =
    ran_api
    ∷ started_worker
    ∷ set_signals
    ∷ made_worker
    ∷ made_api
    ∷ made_rotation
    ∷ made_embedder
    ∷ checked_converter available
    ∷ made_converter
    ∷ reconciled
    ∷ t

-- The readings of the flag from one on, with a pause behind each that is not set; `none` is an end of
-- the fuel.
unfoldable pub wait : ℕ → ℕ → (ℕ → Bool) → Trace → Option Trace
wait zero i stop t = none
wait (suc fuel) i stop t = elim (stop i) [
  | true ↦ some (read_stop true ∷ t)
  | false ↦ wait fuel (i + 1) stop (slept ∷ read_stop false ∷ t)
]

-- The parts are stopped, and the connection is closed behind all of them; `none` is a stop that does not
-- return.
unfoldable pub shut_down : System → Trace → Option Trace
shut_down sys t =
    if not sys.api_stops
    then none
    else if not sys.worker_stops
    then none
    else if not sys.rotation_stops
    then none
    else some
        (deleted_converter ∷ closed_store ∷ stopped_rotation ∷ stopped_worker ∷ stopped_api ∷ t)

unfoldable pub finish : System → Option Trace → Option (ℕ × Trace)
finish sys none = none
finish sys (some t) = elim (shut_down sys t) [ none ↦ none | some u ↦ some (0, u) ]

-- The destructor of the store closes the connection where the program ends early.
unfoldable pub main : ℕ → System → Config → Option (ℕ × Trace)
main fuel sys cfg =
    let t = opened_store sys.open_store ∷ loaded_config ∷ loaded_dotenv ∷ [] in
    let dir = migrations_dir cfg in
    let u = migrated dir (sys.migrate dir) ∷ t in
    if not sys.open_store
    then some (1, closed_store ∷ t)
    else if not (sys.migrate dir)
    then some (1, closed_store ∷ u)
    else finish sys (wait fuel 0 sys.stop (start_parts sys.available u))
