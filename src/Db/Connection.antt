-- ===== src/Db/Connection.antt =====
-- `Store::Open`, `Close` and `CreateConnection` of src/db.cpp, and the attempts to connect of a thread in
-- src/worker.cpp. The library answers by the history of its calls, newest call first.
pub mod Balance
use autodngconverter.Base.{
  ℕ, zero, suc, ◌+◌, ◌≤◌, ◌≡◌, refl, Bool, true, false, List, [], ◌∷◌, arith, if◌then◌else◌,
  if-Holds,
}

-- `mysql_init` and `mysql_real_connect` with their success, a pause of two seconds, and `mysql_close`.
pub data Call : Type 0 where
  made : Bool → Call
  tried : Bool → Call
  slept : Call
  released : Call

abbrev pub Trace : Type 0
Trace = List Call

-- `stopped` is the flag of the worker.
pub record Library : Type 0 where
  pub init : Trace → Bool
  pub connect : Trace → Bool
  pub stopped : Trace → Bool

-- The result, whether there is a connection object, and the history.
abbrev pub Opened : Type 0
Opened = Bool × Bool × Trace

module _ (lib : Library) where
  -- The attempts that are left.
  unfoldable pub open_loop : ℕ → Trace → Opened
  open_loop zero t = (false, true, t)
  open_loop (suc n) t = elim (lib.connect t) [
    | true ↦ (true, true, tried true ∷ t)
    | false ↦ open_loop n (slept ∷ tried false ∷ t)
  ]

  -- After five failures the object stays, without a connection.
  unfoldable pub open_store : Trace → Opened
  open_store t = elim (lib.init t) [
    | true ↦ open_loop 5 (made true ∷ t)
    | false ↦ (false, false, made false ∷ t)
  ]

  -- One attempt; an object without a connection is released.
  unfoldable pub create_connection : Trace → Opened
  create_connection t = elim (lib.init t) [
    | false ↦ (false, false, made false ∷ t)
    | true ↦ elim (lib.connect (made true ∷ t)) [
      | true ↦ (true, true, tried true ∷ made true ∷ t)
      | false ↦ (false, false, released ∷ tried false ∷ made true ∷ t)
    ]
  ]

  unfoldable pub retry : (Trace → Opened) → Opened → Opened
  retry again (true, has, t) = (true, has, t)
  retry again (false, has, t) = again (slept ∷ t)

  -- The attempts of a worker thread, which end when the flag is set.
  unfoldable pub connect_worker : ℕ → Trace → Opened
  unfolding retry
  connect_worker zero t = (false, false, t)
  connect_worker (suc n) t = elim (lib.stopped t) [
    | true ↦ (false, false, t)
    | false ↦ retry (connect_worker n) (create_connection t)
  ]

-- What `Close`, or the destructor of a store, does behind it.
unfoldable pub close : Opened → Trace
close (ok, true, t) = released ∷ t
close (ok, false, t) = t
