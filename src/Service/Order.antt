-- ===== src/Service/Order.antt =====
-- The order of start and shutdown in src/main.cpp.
use autodngconverter.Base.{
  ℕ, zero, suc, ◌+◌, ◌≤◌, ◌<◌, ◌≡◌, refl, inl, inr, Bool, true, false, not, ◌&&◌, Option, none,
  some, [], ◌∷◌, arith, Bytes, if◌then◌else◌, Bool-cases, ◌==◌, ==_iff,
}
use autodngconverter.Config.{Config}
use autodngconverter.Service.{
  loaded_dotenv, loaded_config, opened_store, migrated, reconciled, made_rotation, started_worker,
  ran_api, read_stop, slept, stopped_api, stopped_worker, stopped_rotation, closed_store,
  deleted_converter, Trace, System, migrations_dir, start_parts, wait, shut_down, finish, main,
}

-- The parts that have threads: how many were started, and how many were stopped.
abbrev pub starts : Trace → ℕ
starts [] = 0
starts (made_rotation ∷ t) = 1 + starts t
starts (started_worker ∷ t) = 1 + starts t
starts (ran_api ∷ t) = 1 + starts t
starts (s ∷ t) = starts t

abbrev pub stops : Trace → ℕ
stops [] = 0
stops (stopped_rotation ∷ t) = 1 + stops t
stops (stopped_worker ∷ t) = 1 + stops t
stops (stopped_api ∷ t) = 1 + stops t
stops (s ∷ t) = stops t

abbrev pub closings : Trace → ℕ
closings [] = 0
closings (closed_store ∷ t) = 1 + closings t
closings (s ∷ t) = closings t

abbrev IsMigrated : Trace → Type 0
IsMigrated (migrated dir true ∷ opened_store true ∷ t) = Unit
IsMigrated t = ⊥

-- The library is reconciled only right behind a migration that succeeded; parts start only while the
-- store is open; and the store is closed, and the converter deleted, only when all parts are stopped.
abbrev pub IsOrderly : Trace → Type 0
IsOrderly [] = Unit
IsOrderly (reconciled ∷ t) = IsMigrated t × IsOrderly t
IsOrderly (made_rotation ∷ t) = (closings t ≡ 0) × IsOrderly t
IsOrderly (started_worker ∷ t) = (closings t ≡ 0) × IsOrderly t
IsOrderly (ran_api ∷ t) = (closings t ≡ 0) × IsOrderly t
IsOrderly (closed_store ∷ t) = (starts t ≡ stops t) × IsOrderly t
IsOrderly (deleted_converter ∷ t) = (starts t ≡ stops t) × IsOrderly t
IsOrderly (s ∷ t) = IsOrderly t

-- The program has ended: in order, with the store closed once and all parts stopped.
abbrev pub HasEnded : ℕ → Option (ℕ × Trace) → Type 0
HasEnded code none = ⊥
HasEnded code (some (c, t)) = (c ≡ code) × IsOrderly t × (closings t ≡ 1) × (starts t ≡ stops t)

-- The parts run, and the store is open.
abbrev IsRunning : Trace → Type 0
IsRunning t = IsOrderly t × (closings t ≡ 0) × (starts t ≡ stops t + 3)

abbrev HasWaited : Option Trace → Type 0
HasWaited none = ⊥
HasWaited (some t) = IsRunning t

not_yet : (i k : ℕ) (stop : ℕ → Bool) → stop k ≡ true → i ≤ k → stop i ≡ false → i + 1 ≤ k
not_yet i k stop h l e = elim (Bool-cases (i == k)) [
  | inl b ↦ let f = (==_iff i k).0 b in absurd cc
  | inr b ↦ ground (arith, b)
]

wait-HasWaited :
    (fuel i k : ℕ) (stop : ℕ → Bool) (t : Trace)
    → stop k ≡ true
    → i ≤ k
    → k < i + fuel
    → IsRunning t
    → HasWaited (wait fuel i stop t)
unfolding wait
wait-HasWaited zero i k stop t h l m r = absurd (omega arith)
wait-HasWaited (suc fuel) i k stop t h l m r =
    go (stop i) refl
      (λ n. wait-HasWaited fuel (i + 1) k stop (slept ∷ read_stop false ∷ t) h n (omega arith) r)
  where
    go :
        (b : Bool)
        → stop i ≡ b
        → (i + 1 ≤ k → HasWaited (wait fuel (i + 1) stop (slept ∷ read_stop false ∷ t)))
        → HasWaited (elim b [
          | true ↦ some (read_stop true ∷ t)
          | false ↦ wait fuel (i + 1) stop (slept ∷ read_stop false ∷ t)
        ])
    go true e f = r
    go false e f = f (not_yet i k stop h l e)

-- Each stop of a part returns.
abbrev pub StopsReturn : System → Type 0
StopsReturn sys = (sys.api_stops ≡ true) × (sys.worker_stops ≡ true) × (sys.rotation_stops ≡ true)

finish-HasEnded :
    (sys : System) → StopsReturn sys → (o : Option Trace) → HasWaited o → HasEnded 0 (finish sys o)
unfolding finish shut_down
finish-HasEnded sys r none h = absurd h
finish-HasEnded sys (a, w, r) (some t) (o, c, s) =
    rw (a, w, r) (refl, (omega arith, (omega arith, o)), omega arith, omega arith)

start_parts-IsRunning :
    (dir : Bytes) (available : Bool)
    → IsRunning (
        start_parts available
          (migrated dir true ∷ opened_store true ∷ loaded_config ∷ loaded_dotenv ∷ []))
unfolding start_parts
start_parts-IsRunning dir available = ((refl, (refl, (refl, (tt, tt)))), refl, refl)

abbrev run : ℕ → Bytes → System → Bool → Bool → Option (ℕ × Trace)
run fuel dir sys o m =
    let t = opened_store o ∷ loaded_config ∷ loaded_dotenv ∷ [] in
    let u = migrated dir m ∷ t in
    if not o
    then some (1, closed_store ∷ t)
    else if not m
    then some (1, closed_store ∷ u)
    else finish sys (wait fuel 0 sys.stop (start_parts sys.available u))

run-HasEnded :
    (fuel k : ℕ) (dir : Bytes) (sys : System) (o m : Bool)
    → StopsReturn sys
    → sys.stop k ≡ true
    → k < fuel
    → HasEnded (if o && m then 0 else 1) (run fuel dir sys o m)
run-HasEnded fuel k dir sys false m r h l = (refl, (refl, tt), refl, refl)
run-HasEnded fuel k dir sys true false r h l = (refl, (refl, tt), refl, refl)
run-HasEnded fuel k dir sys true true r h l = finish-HasEnded sys r (wait fuel 0 sys.stop t) (
    wait-HasWaited fuel 0 k sys.stop t h (omega arith) (omega arith)
      (start_parts-IsRunning dir sys.available))
  where
    t : Trace
    t =
        start_parts sys.available
          (migrated dir true ∷ opened_store true ∷ loaded_config ∷ loaded_dotenv ∷ [])

-- Once the flag of the signal is set, and if each stop of a part returns, the program ends, with the exit
-- code 0 if the store was opened and migrated and with 1 otherwise: the library is reconciled only behind the migration, no part starts while
-- the store is closed, and the store is closed once, when every part that was started is stopped.
pub main-HasEnded :
    (fuel k : ℕ) (sys : System) (cfg : Config)
    → StopsReturn sys
    → sys.stop k ≡ true
    → k < fuel
    → HasEnded
        (if sys.open_store && sys.migrate (migrations_dir cfg) then 0 else 1)
        (main fuel sys cfg)
unfolding main
main-HasEnded fuel k sys cfg r h l =
    run-HasEnded fuel k (migrations_dir cfg) sys sys.open_store (sys.migrate (migrations_dir cfg)) r
      h l
