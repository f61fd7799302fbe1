-- ===== src/Db/Migrate/Table.antt =====
-- One migration of `Store::Migrate` of src/db.cpp on the table of versions.
use autodngconverter.Base.{
  ◌≡◌, refl, sym, ◌∙◌, ap, Bool, true, false, some, List, [], ◌∷◌, Bytes, codes, if◌then◌else◌,
  Bool-cases, if-Holds, inl, inr,
}
use mathlib.Core.Path.{subst}
use autodngconverter.Util.SplitSql.{split_sql}
use autodngconverter.Db.Server.{
  Sql, select_migration, insert_migration, migration, Cell, text, asked, executed, Trace, Server,
  query, run, statement, exec_select, fetched,
}
use autodngconverter.Db.Migrate.{SqlFile, run_statements, run_file, is_recorded, migrate_file}

-- What the server documents of the table `schema_migrations`: the statements on it are prepared and
-- bound, and the question for a version succeeds; a version whose insert succeeded is found, it stays, and
-- nothing else changes the table.
pub record SchemaTable (sv : Server) : Type 0 where
  pub view : Trace → Bytes → Bool
  pub prepared : (t : Trace) (q : Sql) → sv.prepare t q ≡ true
  pub bound : (t : Trace) (q : Sql) (cells : List Cell) → sv.bind_param t q cells ≡ true
  pub results : (t : Trace) (q : Sql) → sv.bind_result t q ≡ true
  pub executes : (t : Trace) (v : Bytes) → sv.execute t select_migration (text v ∷ []) ≡ true
  pub found :
      (t : Trace) (v : Bytes)
      → sv.fetch (executed select_migration (text v ∷ []) true ∷ t)
        ≡ (if view t v then some (codes "1" ∷ []) ∷ [] else [])
  pub inserted :
      (t : Trace) (v : Bytes) → view (executed insert_migration (text v ∷ []) true ∷ t) v ≡ true
  pub stays :
      (t : Trace) (v w : Bytes) (ok : Bool)
      → view t w ≡ true
      → view (executed insert_migration (text v ∷ []) ok ∷ t) w ≡ true
  pub selected :
      (t : Trace) (v w : Bytes)
      → view (executed select_migration (text v ∷ []) true ∷ t) w ≡ view t w
  pub kept : (t : Trace) (q : Sql) (ok : Bool) (w : Bytes) → view (asked q ok ∷ t) w ≡ view t w

-- The statements of migrations that were sent, newest first.
abbrev pub sent : Trace → List Bytes
sent [] = []
sent (asked (migration stmt) ok ∷ t) = stmt ∷ sent t
sent (_ ∷ t) = sent t

-- No insert of a version has failed.
abbrev pub NoInsertFailed : Trace → Type 0
NoInsertFailed [] = Unit
NoInsertFailed (executed insert_migration cells ok ∷ t) = (ok ≡ true) × NoInsertFailed t
NoInsertFailed (_ ∷ t) = NoInsertFailed t

module _ (sv : Server) (table : SchemaTable sv) where
  -- The answer to the question whether a version is recorded.
  is_recorded_lem :
      (f : SqlFile) (t : Trace)
      → is_recorded sv f t
        ≡ (table.view t f.version, executed select_migration (text f.version ∷ []) true ∷ t)
  unfolding is_recorded exec_select statement run
  is_recorded_lem f t =
      rw
        (
          table.prepared t select_migration,
          table.bound t select_migration (text f.version ∷ []),
          table.executes t f.version,
          table.results (executed select_migration (text f.version ∷ []) true ∷ t) select_migration,
          table.found t f.version,
        )
        (elim (Bool-cases (table.view t f.version)) [
          | inl h ↦ rw (h, fetched) refl
          | inr h ↦ rw (h, fetched) refl
        ])

  -- A version that is recorded stays recorded.
  abbrev pub Holds : Bytes → Trace → Type 0
  Holds w t = table.view t w ≡ true

  -- It is recorded, if no insert has failed.
  abbrev pub Kept : Bytes → Trace → Type 0
  Kept w t = NoInsertFailed t → Holds w t

  abbrev pub Keeps : Bytes → Bool × Trace → Type 0
  Keeps w (ok, u) = Kept w u

  run_statements-Keeps :
      (w : Bytes) (stmts : List Bytes) (t : Trace) → Kept w t → Keeps w (run_statements sv stmts t)
  unfolding run_statements query
  run_statements-Keeps w [] t h = h
  run_statements-Keeps w (stmt ∷ stmts) t h =
      let k : Kept w (asked (migration stmt) (sv.query t (migration stmt)) ∷ t) =
        λ n. table.kept t (migration stmt) (sv.query t (migration stmt)) w ∙ h n in
      if-Holds (Keeps w) (sv.query t (migration stmt))
        (run_statements sv stmts (asked (migration stmt) (sv.query t (migration stmt)) ∷ t))
        (false, asked (migration stmt) (sv.query t (migration stmt)) ∷ t)
        (λ _. run_statements-Keeps w stmts _ k) (λ _. k)

  abbrev record_version : SqlFile → Bool × Trace → Bool × Trace
  record_version f (ok, u) =
      if ok
      then (
        true,
        executed insert_migration (text f.version ∷ [])
              (sv.execute u insert_migration (text f.version ∷ []))
            ∷ u,
      )
      else (false, u)

  run_file_lem :
      (f : SqlFile) (t : Trace)
      → run_file sv f t ≡ record_version f (run_statements sv (split_sql f.content) t)
  unfolding run_file statement run
  run_file_lem f t =
      let u = (run_statements sv (split_sql f.content) t).1 in
      rw (table.prepared u insert_migration, table.bound u insert_migration (text f.version ∷ []))
        refl

  record_version-Keeps :
      (w : Bytes) (f : SqlFile) (r : Bool × Trace) → Keeps w r → Keeps w (record_version f r)
  record_version-Keeps w f (true, u) h = λ (k, n).
      table.stays u f.version w (sv.execute u insert_migration (text f.version ∷ [])) (h n)
  record_version-Keeps w f (false, u) h = h

  -- A file after which the run goes on is recorded.
  abbrev pub Records : Bytes → Bool × Trace → Type 0
  Records w (true, u) = Kept w u
  Records w (false, u) = Unit

  record_version-Records : (f : SqlFile) (r : Bool × Trace) → Records f.version (record_version f r)
  record_version-Records f (true, u) = λ (k, n).
      subst (λ ok. Holds f.version (executed insert_migration (text f.version ∷ []) ok ∷ u)) (sym k)
        (table.inserted u f.version)
  record_version-Records f (false, u) = tt

  abbrev answered : SqlFile → Bool × Trace → Bool × Trace
  answered f (done, u) = if done then (true, u) else run_file sv f u

  -- What a file does, by the answer of the table.
  pub migrate_file_lem :
      (f : SqlFile) (t : Trace)
      → migrate_file sv f t ≡ (
          let u = executed select_migration (text f.version ∷ []) true ∷ t in
          if table.view t f.version
          then (true, u)
          else record_version f (run_statements sv (split_sql f.content) u))
  unfolding migrate_file
  migrate_file_lem f t =
      ap (answered f) (is_recorded_lem f t)
      ∙ rw (run_file_lem f (executed select_migration (text f.version ∷ []) true ∷ t)) refl

  pub migrate_file-Keeps :
      (w : Bytes) (f : SqlFile) (t : Trace) → Kept w t → Keeps w (migrate_file sv f t)
  migrate_file-Keeps w f t h =
      let u = executed select_migration (text f.version ∷ []) true ∷ t in
      let k : Kept w u = λ n. table.selected t f.version w ∙ h n in
      rw (migrate_file_lem f t) (
        if-Holds (Keeps w) (table.view t f.version) (true, u)
          (record_version f (run_statements sv (split_sql f.content) u)) (λ _. k)
          (λ _.
            record_version-Keeps w f (run_statements sv (split_sql f.content) u)
              (run_statements-Keeps w (split_sql f.content) u k)))

  pub migrate_file-Records : (f : SqlFile) (t : Trace) → Records f.version (migrate_file sv f t)
  migrate_file-Records f t =
      let u = executed select_migration (text f.version ∷ []) true ∷ t in
      rw (migrate_file_lem f t) (
        if-Holds (Records f.version) (table.view t f.version) (true, u)
          (record_version f (run_statements sv (split_sql f.content) u))
          (λ h n. table.selected t f.version f.version ∙ h)
          (λ _. record_version-Records f (run_statements sv (split_sql f.content) u)))
