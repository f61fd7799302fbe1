-- ===== src/Db/Migrate/Once.antt =====
-- `Store::Migrate` of src/db.cpp runs the statements of a migration once.
use autodngconverter.Base.{
  ◌≡◌, refl, sym, ◌∙◌, ap, Bool, true, false, some, List, [], ◌∷◌, Bytes, All, if◌then◌else◌,
}
use mathlib.Core.Path.{subst}
use autodngconverter.Db.Server.{
  select_migration, create_schema_migrations, text, asked, executed, Trace, Server, query,
}
use autodngconverter.Db.Migrate.{SqlFile, sql_files, sort, migrate_file, migrate_files, migrate}
use autodngconverter.Db.Migrate.Table.{
  SchemaTable, NoInsertFailed, Kept, sent, Holds, Keeps, Records, migrate_file_lem,
  migrate_file-Keeps, migrate_file-Records,
}

module _ (sv : Server) (table : SchemaTable sv) where
  -- Every version is recorded.
  abbrev pub AllRecorded : List SqlFile → Trace → Type 0
  AllRecorded fs t = All (λ f. Holds sv table f.version t) fs

  abbrev RecordsAll : List SqlFile → Bool × Trace → Type 0
  RecordsAll fs (true, u) = NoInsertFailed u → AllRecorded fs u
  RecordsAll fs (false, u) = Unit

  abbrev go_on : List SqlFile → Bool × Trace → Bool × Trace
  go_on fs (ok, u) = if ok then migrate_files sv fs u else (false, u)

  go_on-Keeps :
      (w : Bytes) (fs : List SqlFile) (r : Bool × Trace)
      → ((u : Trace) → Kept sv table w u → Keeps sv table w (migrate_files sv fs u))
      → Keeps sv table w r
      → Keeps sv table w (go_on fs r)
  go_on-Keeps w fs (true, u) k h = k u h
  go_on-Keeps w fs (false, u) k h = h

  migrate_files-Keeps :
      (w : Bytes) (fs : List SqlFile) (t : Trace)
      → Kept sv table w t
      → Keeps sv table w (migrate_files sv fs t)
  unfolding migrate_files
  migrate_files-Keeps w [] t h = h
  migrate_files-Keeps w (f ∷ fs) t h =
      go_on-Keeps w fs (migrate_file sv f t) (λ u. migrate_files-Keeps w fs u)
        (migrate_file-Keeps sv table w f t h)

  both :
      (f : SqlFile) (fs : List SqlFile) (r : Bool × Trace)
      → Keeps sv table f.version r
      → RecordsAll fs r
      → RecordsAll (f ∷ fs) r
  both f fs (true, u) h k = λ n. (h n, k n)
  both f fs (false, u) h k = tt

  go_on-RecordsAll :
      (f : SqlFile) (fs : List SqlFile) (r : Bool × Trace)
      → ((u : Trace) → RecordsAll fs (migrate_files sv fs u))
      → Records sv table f.version r
      → RecordsAll (f ∷ fs) (go_on fs r)
  go_on-RecordsAll f fs (true, u) k h =
      both f fs (migrate_files sv fs u) (migrate_files-Keeps f.version fs u h) (k u)
  go_on-RecordsAll f fs (false, u) k h = tt

  migrate_files-RecordsAll : (fs : List SqlFile) (t : Trace) → RecordsAll fs (migrate_files sv fs t)
  unfolding migrate_files
  migrate_files-RecordsAll [] t = λ n. tt
  migrate_files-RecordsAll (f ∷ fs) t =
      go_on-RecordsAll f fs (migrate_file sv f t) (λ u. migrate_files-RecordsAll fs u)
        (migrate_file-Records sv table f t)

  -- On recorded versions nothing but the questions is sent.
  abbrev pub IsQuiet : Trace → Bool × Trace → Type 0
  IsQuiet t (ok, u) = (ok ≡ true) × (sent u ≡ sent t)

  AllRecorded-select :
      (v : Bytes) (fs : List SqlFile) (t : Trace)
      → AllRecorded fs t
      → AllRecorded fs (executed select_migration (text v ∷ []) true ∷ t)
  AllRecorded-select v [] t h = tt
  AllRecorded-select v (f ∷ fs) t (h, hs) =
      (table.selected t v f.version ∙ h, AllRecorded-select v fs t hs)

  migrate_files-IsQuiet :
      (fs : List SqlFile) (t : Trace) → AllRecorded fs t → IsQuiet t (migrate_files sv fs t)
  unfolding migrate_files
  migrate_files-IsQuiet [] t h = (refl, refl)
  migrate_files-IsQuiet (f ∷ fs) t (h, hs) =
      rw (migrate_file_lem sv table f t, h)
        (migrate_files-IsQuiet fs (executed select_migration (text f.version ∷ []) true ∷ t)
          (AllRecorded-select f.version fs t hs))

  AllRecorded-create :
      (fs : List SqlFile) (ok : Bool) (t : Trace)
      → AllRecorded fs t
      → AllRecorded fs (asked create_schema_migrations ok ∷ t)
  AllRecorded-create [] ok t h = tt
  AllRecorded-create (f ∷ fs) ok t (h, hs) =
      (table.kept t create_schema_migrations ok f.version ∙ h, AllRecorded-create fs ok t hs)

  finished :
      (fs : List SqlFile) (r : Bool × Trace)
      → r.0 ≡ true
      → RecordsAll fs r
      → NoInsertFailed r.1
      → AllRecorded fs r.1
  finished fs (true, u) h k n = k n
  finished fs (false, u) h k n = absurd cc

  abbrev created : Trace → Trace
  created u = asked create_schema_migrations (sv.query u create_schema_migrations) ∷ u

  migrate_lem :
      (files : List SqlFile) (t : Trace)
      → sv.connected ≡ true
      → migrate sv (some files) t ≡ migrate_files sv (sort (sql_files files)) (created t)
  unfolding migrate query
  migrate_lem files t c = rw (c) refl

  -- After a migration that succeeded, every migration of the directory is recorded, and a second
  -- migration of the same directory from there succeeds and sends no statement of a migration again. The
  -- connection is open, no insert of a version has failed, the other statements on the table of versions
  -- succeed, and the statements of the migrations leave the recorded versions in the table.
  pub migrate-IsQuiet :
      (files : List SqlFile) (t : Trace)
      → sv.connected ≡ true
      → (migrate sv (some files) t).0 ≡ true
      → NoInsertFailed (migrate sv (some files) t).1
      → AllRecorded (sort (sql_files files)) (migrate sv (some files) t).1
        × IsQuiet
            (migrate sv (some files) t).1
            (migrate sv (some files) (migrate sv (some files) t).1)
  migrate-IsQuiet files t c h n = (done, again (migrate sv (some files) t).1 done)
    where
      fs : List SqlFile
      fs = sort (sql_files files)

      done : AllRecorded fs (migrate sv (some files) t).1
      done = rw (migrate_lem files t c) (
          finished fs (migrate_files sv fs (created t))
            (ap (λ r. r.0) (sym (migrate_lem files t c)) ∙ h)
            (migrate_files-RecordsAll fs (created t))
            (subst (λ r. NoInsertFailed r.1) (migrate_lem files t c) n))

      again : (u : Trace) → AllRecorded fs u → IsQuiet u (migrate sv (some files) u)
      again u k = rw (migrate_lem files u c) (
          migrate_files-IsQuiet fs (created u)
            (AllRecorded-create fs (sv.query u create_schema_migrations) u k))
