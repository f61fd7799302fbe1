-- ===== src/Db/Lock/Exclusion.antt =====
-- What the processing lock of src/db.cpp promises its holder.
use autodngconverter.Base.{
  ℕ, ◌+◌, ◌≡◌, refl, ◌∙◌, ap, ◌⊎◌, Bool, true, false, ◌&&◌, Option, none, some, List, [], ◌∷◌,
  Bytes, bytes_eq, is_empty, ltb, Bool-cases, inl, inr, if-Holds,
}
use autodngconverter.Db.Server.{
  select_lock, upsert_lock, delete_lock, Cell, text, number, asked, clock, executed, Trace, Server,
  statement, run,
}
use autodngconverter.Db.Lock.{
  read_clock, blocks, write_lock, execute_select, select_row, check_lock, effective_worker,
  acquire_connected, acquire_lock, release_lock,
}

-- What the server documents of the table of locks: its row for an import after each of the calls, and
-- that the fetch which follows the successful select finds that row.
pub record LockTable (sv : Server) : Type 0 where
  pub view : Trace → ℕ → Option (Bytes × ℕ)
  pub upserted :
      (id : ℕ) (worker : Bytes) (expires : ℕ) (t : Trace)
      → view
          (executed upsert_lock
              (number id ∷ text worker ∷ number expires ∷ text worker ∷ number expires ∷ [])
              true
            ∷ t)
          id
        ≡ some (worker, expires)
  pub deleted : (id : ℕ) (t : Trace) → view (asked (delete_lock id) true ∷ t) id ≡ none
  pub ticked : (id n : ℕ) (t : Trace) → view (clock n ∷ t) id ≡ view t id
  pub selected :
      (id j : ℕ) (ok : Bool) (t : Trace)
      → view (executed select_lock (number j ∷ []) ok ∷ t) id ≡ view t id
  pub found :
      (id : ℕ) (t : Trace)
      → sv.lock_row (executed select_lock (number id ∷ []) true ∷ t) ≡ view t id

module _ (sv : Server) (table : LockTable sv) where
  -- A row that the select returns is the stored one, and the select changes no lock.
  abbrev Finds : ℕ → Trace → Option (Option (Bytes × ℕ)) × Trace → Type 0
  Finds id t (row, u) =
      ((row ≡ none) ⊎ (row ≡ some (table.view t id))) × (table.view u id ≡ table.view t id)

  execute_select-Finds : (id : ℕ) (t : Trace) → Finds id t (execute_select sv id t)
  unfolding execute_select
  execute_select-Finds id t = elim (Bool-cases (sv.execute t select_lock (number id ∷ []))) [
    | inl k ↦ rw (k) (elim (Bool-cases (sv.store_result u)) [
      | inl l ↦ rw (l) (inr (ap some (table.found id t)), table.selected id id true t)
      | inr l ↦ rw (l) (inl refl, table.selected id id true t)
    ])
    | inr k ↦ rw (k) (inl refl, table.selected id id false t)
  ]
    where
      u : Trace
      u = executed select_lock (number id ∷ []) true ∷ t

  select_row-Finds : (id : ℕ) (t : Trace) → Finds id t (select_row sv id t)
  unfolding select_row
  select_row-Finds id t =
      if-Holds (Finds id t)
        (sv.prepare t select_lock
          && sv.bind_param t select_lock (number id ∷ [])
          && sv.bind_result t select_lock)
        (execute_select sv id t) (none, t) (λ _. execute_select-Finds id t) (λ _. (inl refl, refl))

  check_lock-refuses :
      (id : ℕ) (me : Bytes) (expires : ℕ) (holder : Bytes) (until : ℕ)
      (row : Option (Option (Bytes × ℕ))) (t : Trace)
      → (row ≡ none) ⊎ (row ≡ some (some (holder, until)))
      → table.view t id ≡ some (holder, until)
      → bytes_eq holder me ≡ false
      → ltb (sv.now t) until ≡ true
      → ((check_lock sv id me expires row t).0 ≡ false)
        × (table.view (check_lock sv id me expires row t).1 id ≡ some (holder, until))
  unfolding check_lock blocks read_clock
  check_lock-refuses id me expires holder until row t (inl e) h k l = rw (e) (refl, h)
  check_lock-refuses id me expires holder until row t (inr e) h k l =
      rw (e, k, l) (refl, table.ticked id (sv.now t) t ∙ h)

  abbrev pub Excludes : ℕ → Bytes × ℕ → Bool × Trace → Type 0
  Excludes id held (ok, t) = (ok ≡ false) × (table.view t id ≡ some held)

  acquire_connected-Excludes :
      (id : ℕ) (me : Bytes) (ttl : ℕ) (holder : Bytes) (until : ℕ) (t : Trace)
      → table.view t id ≡ some (holder, until)
      → is_empty me ≡ false
      → bytes_eq holder me ≡ false
      → ((u : Trace) → ltb (sv.now u) until ≡ true)
      → Excludes id (holder, until) (acquire_connected sv id me ttl t)
  unfolding acquire_connected effective_worker read_clock
  acquire_connected-Excludes id me ttl holder until t h n k l =
      let (r, v) = select_row-Finds id started in
      rw (n) (
        check_lock-refuses id me (sv.now t + ttl) holder until (select_row sv id started).0
          (select_row sv id started).1 (is_held r) (v ∙ ticked) k (l (select_row sv id started).1))
    where
      started : Trace
      started = clock (sv.now t) ∷ t

      ticked : table.view started id ≡ some (holder, until)
      ticked = table.ticked id (sv.now t) t ∙ h

      is_held :
          ((select_row sv id started).0 ≡ none)
            ⊎ ((select_row sv id started).0 ≡ some (table.view started id))
          → ((select_row sv id started).0 ≡ none)
            ⊎ ((select_row sv id started).0 ≡ some (some (holder, until)))
      is_held (inl e) = inl e
      is_held (inr e) = inr (e ∙ ap some ticked)

  -- While another worker holds the lock of an import and its time is not over, an attempt to take the
  -- lock fails, and the lock stays with its holder, whichever call fails on the way, apart from the
  -- fetch: behind a select that succeeded it is taken to find the row of the lock.
  pub acquire_lock-Excludes :
      (id : ℕ) (me : Bytes) (ttl : ℕ) (holder : Bytes) (until : ℕ) (t : Trace)
      → table.view t id ≡ some (holder, until)
      → is_empty me ≡ false
      → bytes_eq holder me ≡ false
      → ((u : Trace) → ltb (sv.now u) until ≡ true)
      → Excludes id (holder, until) (acquire_lock sv id me ttl t)
  unfolding acquire_lock
  acquire_lock-Excludes id me ttl holder until t h n k l =
      if-Holds (Excludes id (holder, until)) sv.connected (acquire_connected sv id me ttl t)
        (false, t) (λ _. acquire_connected-Excludes id me ttl holder until t h n k l)
        (λ _. (refl, h))

  abbrev Takes : ℕ → Bytes → ℕ → Bool × Trace → Type 0
  Takes id me expires (ok, t) = ok ≡ true → table.view t id ≡ some (me, expires)

  write_lock-Takes :
      (id : ℕ) (me : Bytes) (expires : ℕ) (t : Trace)
      → Takes id me expires (write_lock sv id me expires t)
  unfolding write_lock statement run
  write_lock-Takes id me expires t =
      if-Holds (Takes id me expires) (sv.prepare t upsert_lock) (run sv upsert_lock cells t)
        (false, t)
        (λ _.
          if-Holds (Takes id me expires) (sv.bind_param t upsert_lock cells)
            (
              sv.execute t upsert_lock cells,
              executed upsert_lock cells (sv.execute t upsert_lock cells) ∷ t,
            )
            (false, t) (λ _. λ h. rw (h) (table.upserted id me expires t)) (λ _. λ h. absurd (cc)))
        (λ _. λ h. absurd (cc))
    where
      cells : List Cell
      cells = number id ∷ text me ∷ number expires ∷ text me ∷ number expires ∷ []

  check_lock-Takes :
      (id : ℕ) (me : Bytes) (expires : ℕ) (row : Option (Option (Bytes × ℕ))) (t : Trace)
      → Takes id me expires (check_lock sv id me expires row t)
  unfolding check_lock
  check_lock-Takes id me expires none t = λ h. absurd (cc)
  check_lock-Takes id me expires (some row) t =
      let u = (read_clock sv t).1 in
      if-Holds (Takes id me expires) (blocks sv me (read_clock sv t).0 row) (false, u)
        (write_lock sv id me expires u) (λ _. λ h. absurd (cc))
        (λ _. write_lock-Takes id me expires u)

  acquire_connected-Takes :
      (id : ℕ) (me : Bytes) (ttl : ℕ) (t : Trace)
      → is_empty me ≡ false
      → Takes id me (sv.now t + ttl) (acquire_connected sv id me ttl t)
  unfolding acquire_connected effective_worker read_clock
  acquire_connected-Takes id me ttl t n =
      let r = select_row sv id (clock (sv.now t) ∷ t) in
      rw (n) (check_lock-Takes id me (sv.now t + ttl) r.0 r.1)

  -- A lock that is taken is recorded for the worker until its time is over, and a release of it that
  -- succeeds leaves no lock.
  pub acquire_lock-takes :
      (id : ℕ) (me : Bytes) (ttl : ℕ) (t : Trace)
      → is_empty me ≡ false
      → (acquire_lock sv id me ttl t).0 ≡ true
      → (table.view (acquire_lock sv id me ttl t).1 id ≡ some (me, sv.now t + ttl))
        × ((u : Trace)
            → (release_lock sv id u).0 ≡ true
            → table.view (release_lock sv id u).1 id ≡ none)
  unfolding acquire_lock release_lock
  acquire_lock-takes id me ttl t n h = (
    if-Holds (Takes id me (sv.now t + ttl)) sv.connected (acquire_connected sv id me ttl t)
        (false, t) (λ _. acquire_connected-Takes id me ttl t n) (λ _. λ e. absurd (cc)) h,
    λ u k. rw (k) (table.deleted id u),
  )
