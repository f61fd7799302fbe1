-- ===== src/Db/Sequence.antt =====
-- `Store::AllocateSequence` of src/db.cpp.
use autodngconverter.Base.{
  ℕ, ◌≡◌, ◌≢◌, refl, ◌⊎◌, inl, inr, Bool-cases, if-Holds, Bool, true, false, List, [], ◌∷◌, ◌++◌,
  arith, Bytes, codes, to_string, ◌==◌, if◌then◌else◌,
}
use autodngconverter.Db.Server.{
  delete_empty_names, delete_tmp_names, start_transaction, commit, rollback, insert_sequence,
  update_sequence, Cell, text, number, Call, asked, executed, Trace, Server, Db, query, run,
}

abbrev pub image_name : ℕ → Bytes
image_name id = codes "IMG_" ++ to_string id

module _ (sv : Server) where
  unfoldable pub abandon : Db (ℕ × Bytes)
  unfolding query
  abandon t = ((0, []), (query sv rollback t).1)

  unfoldable pub finish : ℕ → Db (ℕ × Bytes)
  unfolding abandon query
  finish id t =
      let (ok, u) = query sv commit t in if ok then ((id, image_name id), u) else abandon u

  unfoldable pub rename : ℕ → Db (ℕ × Bytes)
  unfolding finish abandon run
  rename id t =
      if sv.prepare t update_sequence
      then (let (ok, u) = run sv update_sequence (text (image_name id) ∷ number id ∷ []) t in
          if ok then finish id u else abandon u)
      else abandon t

  unfoldable pub insert : Bytes → Db (ℕ × Bytes)
  unfolding rename abandon run
  insert tmp t =
      if sv.prepare t insert_sequence
      then (let (ok, u) = run sv insert_sequence (text tmp ∷ []) t in
          if ok
          then (if sv.insert_id u == 0 then abandon u else rename (sv.insert_id u) u)
          else abandon u)
      else abandon t

  unfoldable pub transact : Bytes → Db (ℕ × Bytes)
  unfolding insert query
  transact tmp t =
      let (ok, u) = query sv start_transaction t in if ok then insert tmp u else ((0, []), u)

  unfoldable pub allocate_sequence : Db (ℕ × Bytes)
  unfolding transact query
  allocate_sequence t =
      let t1 = (query sv delete_empty_names t).1 in
      let t2 = (query sv delete_tmp_names t1).1 in transact (codes "TMP_" ++ sv.random_token t2) t2

-- Whether a transaction is open that neither a COMMIT nor a ROLLBACK has ended.
abbrev pub in_transaction : Trace → Bool
in_transaction [] = false
in_transaction (asked start_transaction true ∷ t) = true
in_transaction (asked commit true ∷ t) = false
in_transaction (asked rollback true ∷ t) = false
in_transaction (c ∷ t) = in_transaction t

-- The row of a number was inserted by the last call: the server gives it as the number of that row.
abbrev pub IsInserted : Server → ℕ → Trace → Type 0
IsInserted sv id before =
    (sv.insert_id before ≡ id)
    × ((tmp : Bytes) × (earlier : Trace) × (before
          ≡ executed insert_sequence (text tmp ∷ []) true ∷ earlier))

-- What the allocation returns: nothing, or the sequence number of a row that was inserted, renamed and
-- committed.
abbrev pub IsAllocated : Server → (ℕ × Bytes) × Trace → Type 0
IsAllocated sv (r, t) =
    (r ≡ (0, []))
    ⊎ ((r.0 ≢ 0)
        × (r.1 ≡ image_name r.0)
        × ((before : Trace) × IsInserted sv r.0 before
            × (t
                ≡ asked commit true
                  ∷ executed update_sequence (text (image_name r.0) ∷ number r.0 ∷ []) true
                  ∷ before)))

-- No transaction is open behind a result.
abbrev Closed : (ℕ × Bytes) × Trace → Type 0
Closed (r, t) = in_transaction t ≡ false

module _ (sv : Server) (rolls : (t : Trace) → sv.query t rollback ≡ true) where
  abandon-Closed : (t : Trace) → Closed (abandon sv t)
  unfolding abandon query
  abandon-Closed t = rw (rolls t) refl

  finish-Closed : (id : ℕ) (t : Trace) → Closed (finish sv id t)
  unfolding finish query
  finish-Closed id t = elim (Bool-cases (sv.query t commit)) [
    | inl k ↦ rw (k) refl
    | inr k ↦ rw (k) (abandon-Closed (asked commit false ∷ t))
  ]

  rename-Closed : (id : ℕ) (t : Trace) → Closed (rename sv id t)
  unfolding rename
  rename-Closed id t =
      if-Holds Closed (sv.prepare t update_sequence) _ _
        (λ _. if-Holds Closed renamed.0 _ _ (λ _. finish-Closed id _) (λ _. abandon-Closed _))
        (λ _. abandon-Closed t)
    where
      renamed : Bool × Trace
      renamed = run sv update_sequence (text (image_name id) ∷ number id ∷ []) t

  insert-Closed : (tmp : Bytes) (t : Trace) → Closed (insert sv tmp t)
  unfolding insert
  insert-Closed tmp t =
      if-Holds Closed (sv.prepare t insert_sequence) _ _
        (λ _.
          if-Holds Closed inserted.0 _ _
            (λ _.
              if-Holds Closed (sv.insert_id inserted.1 == 0) _ _ (λ _. abandon-Closed _)
                (λ _. rename-Closed (sv.insert_id inserted.1) inserted.1))
            (λ _. abandon-Closed _))
        (λ _. abandon-Closed t)
    where
      inserted : Bool × Trace
      inserted = run sv insert_sequence (text tmp ∷ []) t

  transact-Closed :
      (tmp : Bytes) (t : Trace) → in_transaction t ≡ false → Closed (transact sv tmp t)
  unfolding transact query
  transact-Closed tmp t h = elim (Bool-cases (sv.query t start_transaction)) [
    | inl k ↦ rw (k) (insert-Closed tmp (asked start_transaction true ∷ t))
    | inr k ↦ rw (k) h
  ]

-- The allocation leaves no transaction open on any path, if each ROLLBACK succeeds.
pub allocate_sequence-closes :
    (sv : Server) (t : Trace)
    → ((u : Trace) → sv.query u rollback ≡ true)
    → in_transaction t ≡ false
    → in_transaction (allocate_sequence sv t).1 ≡ false
unfolding allocate_sequence query
allocate_sequence-closes sv t r h =
    let t1 = asked delete_empty_names (sv.query t delete_empty_names) ∷ t in
    let t2 = asked delete_tmp_names (sv.query t1 delete_tmp_names) ∷ t1 in
    transact-Closed sv r (codes "TMP_" ++ sv.random_token t2) t2 h

module _ (sv : Server) where
  finish-IsAllocated :
      (id : ℕ) (before : Trace)
      → id ≢ 0
      → IsInserted sv id before
      → IsAllocated sv (
          finish sv id
            (executed update_sequence (text (image_name id) ∷ number id ∷ []) true ∷ before))
  unfolding finish abandon query
  finish-IsAllocated id before h i = elim (Bool-cases (sv.query (renamed ∷ before) commit)) [
    | inl k ↦ rw (k) (inr (h, refl, (before, i, refl)))
    | inr k ↦ rw (k) (inl refl)
  ]
    where
      renamed : Call
      renamed = executed update_sequence (text (image_name id) ∷ number id ∷ []) true

  rename-IsAllocated :
      (id : ℕ) (t : Trace) → id ≢ 0 → IsInserted sv id t → IsAllocated sv (rename sv id t)
  unfolding rename run abandon
  rename-IsAllocated id t h i =
      if-Holds (IsAllocated sv) (sv.prepare t update_sequence) _ _
        (λ _. elim (Bool-cases (sv.bind_param t update_sequence cells)) [
          | inr k ↦ rw (k) (inl refl)
          | inl k ↦ rw (k) (elim (Bool-cases (sv.execute t update_sequence cells)) [
            | inl l ↦ rw (l) (finish-IsAllocated id t h i)
            | inr l ↦ rw (l) (inl refl)
          ])
        ])
        (λ _. inl refl)
    where
      cells : List Cell
      cells = text (image_name id) ∷ number id ∷ []

  insert-IsAllocated : (tmp : Bytes) (t : Trace) → IsAllocated sv (insert sv tmp t)
  unfolding insert abandon run
  insert-IsAllocated tmp t =
      if-Holds (IsAllocated sv) (sv.prepare t insert_sequence) _ _
        (λ _. elim (Bool-cases (sv.bind_param t insert_sequence cells)) [
          | inr k ↦ rw (k) (inl refl)
          | inl k ↦ rw (k) (elim (Bool-cases (sv.execute t insert_sequence cells)) [
            | inl l ↦ rw (l) named
            | inr l ↦ rw (l) (inl refl)
          ])
        ])
        (λ _. inl refl)
    where
      cells : List Cell
      cells = text tmp ∷ []

      inserted : Trace
      inserted = executed insert_sequence cells true ∷ t

      named : IsAllocated sv (
          if sv.insert_id inserted == 0
          then abandon sv inserted
          else rename sv (sv.insert_id inserted) inserted)
      named =
          if-Holds (IsAllocated sv) (sv.insert_id inserted == 0) _ _ (λ _. inl refl)
            (λ k.
              rename-IsAllocated (sv.insert_id inserted) inserted (λ e. ground arith)
                (refl, (tmp, t, refl)))

transact-IsAllocated : (sv : Server) (tmp : Bytes) (t : Trace) → IsAllocated sv (transact sv tmp t)
unfolding transact
transact-IsAllocated sv tmp t =
    if-Holds (IsAllocated sv) (query sv start_transaction t).0 _ _
      (λ _. insert-IsAllocated sv tmp _) (λ _. inl refl)

-- The allocation gives no number, or a number that is not 0 with the name IMG_ and the number; then
-- the last three calls are the successful insert of the row whose number it is, its successful rename
-- and the successful COMMIT.
pub allocate_sequence-IsAllocated :
    (sv : Server) (t : Trace) → IsAllocated sv (allocate_sequence sv t)
unfolding allocate_sequence
allocate_sequence-IsAllocated sv t = transact-IsAllocated sv _ _
