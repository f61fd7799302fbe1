-- ===== src/Db/Lock.antt =====
-- `Store::AcquireLock` and `Store::ReleaseLock` of src/db.cpp.
pub mod Exclusion
use autodngconverter.Base.{
  ℕ, ◌+◌, Bool, true, false, not, ◌&&◌, Option, none, some, List, [], ◌∷◌, Bytes, bytes_eq,
  is_empty, ltb, if◌then◌else◌,
}
use autodngconverter.Db.Server.{
  Sql, select_lock, upsert_lock, delete_lock, Cell, text, number, Call, clock, executed, Trace,
  Server, Db, query, statement, run,
}

module _ (sv : Server) where
  unfoldable pub read_clock : Db ℕ
  read_clock t = (sv.now t, clock (sv.now t) ∷ t)

  -- The lock of another worker that has not expired.
  unfoldable pub blocks : Bytes → ℕ → Option (Bytes × ℕ) → Bool
  blocks me now none = false
  blocks me now (some (worker, expires)) = ltb now expires && not (bytes_eq worker me)

  unfoldable pub write_lock : ℕ → Bytes → ℕ → Db Bool
  unfolding statement run
  write_lock id me expires =
      statement sv upsert_lock
        (number id ∷ text me ∷ number expires ∷ text me ∷ number expires ∷ [])

  unfoldable pub execute_select : ℕ → Db (Option (Option (Bytes × ℕ)))
  execute_select id t =
      let ok = sv.execute t select_lock (number id ∷ []) in
      let u = executed select_lock (number id ∷ []) ok ∷ t in
      (if ok && sv.store_result u then some (sv.lock_row u) else none, u)

  -- The parameters and the result are bound before the execution.
  unfoldable pub select_row : ℕ → Db (Option (Option (Bytes × ℕ)))
  unfolding execute_select
  select_row id t =
      if sv.prepare t select_lock
        && sv.bind_param t select_lock (number id ∷ [])
        && sv.bind_result t select_lock
      then execute_select id t
      else (none, t)

  unfoldable pub check_lock : ℕ → Bytes → ℕ → Option (Option (Bytes × ℕ)) → Db Bool
  unfolding read_clock blocks write_lock
  check_lock id me expires none t = (false, t)
  check_lock id me expires (some row) t =
      let (now, u) = read_clock t in
      if blocks me now row then (false, u) else write_lock id me expires u

  unfoldable pub effective_worker : Bytes → Trace → Bytes
  effective_worker worker t = if is_empty worker then sv.secure_random_token t else worker

  unfoldable pub acquire_connected : ℕ → Bytes → ℕ → Db Bool
  unfolding read_clock select_row check_lock effective_worker
  acquire_connected id worker ttl t =
      let (start, t1) = read_clock t in
      let (row, t2) = select_row id t1 in
      check_lock id (effective_worker worker t1) (start + ttl) row t2

  unfoldable pub acquire_lock : ℕ → Bytes → ℕ → Db Bool
  unfolding acquire_connected
  acquire_lock id worker ttl t =
      if sv.connected then acquire_connected id worker ttl t else (false, t)

  unfoldable pub release_lock : ℕ → Db Bool
  unfolding query
  release_lock id t = query sv (delete_lock id) t
