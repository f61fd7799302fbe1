-- ===== src/Db/Migrate.antt =====
-- `Store::Migrate` of src/db.cpp. A directory is given by the names and the contents of its files, in
-- the order of its listing; a file that cannot be opened has no content.
pub mod Table
pub mod Once
mod Tests
use autodngconverter.Base.{
  ℕ, Bool, true, false, Option, none, some, List, [], ◌∷◌, Bytes, codes, bytes_eq, ltb, ◌==◌,
  if◌then◌else◌,
}
use autodngconverter.Util.SplitSql.{split_sql}
use autodngconverter.Db.Server.{Sql, text, Server, Db, query, statement, exec_select}

pub record SqlFile : Type 0 where
  pub version : Bytes
  pub content : Bytes

-- Is the extension of the file name ".sql"? A name that begins with its only dot has none.
unfoldable pub is_sql : Bytes → Bool
unfolding bytes_eq
is_sql [] = false
is_sql (c ∷ name) = let rest = is_sql name in if bytes_eq name (codes ".sql") then true else rest

unfoldable pub sql_files : List SqlFile → List SqlFile
unfolding is_sql
sql_files [] = []
sql_files (f ∷ fs) = let rest = sql_files fs in if is_sql f.version then f ∷ rest else rest

-- The order of `std::string`.
unfoldable pub before : Bytes → Bytes → Bool
before [] [] = false
before [] (d ∷ t) = true
before (c ∷ s) [] = false
before (c ∷ s) (d ∷ t) = let rest = before s t in if c == d then rest else ltb c d

unfoldable pub insert : SqlFile → List SqlFile → List SqlFile
unfolding before
insert f [] = f ∷ []
insert f (g ∷ gs) =
    let rest = insert f gs in if before g.version f.version then g ∷ rest else f ∷ g ∷ gs

-- `std::sort`; the names of the files of a directory differ.
unfoldable pub sort : List SqlFile → List SqlFile
unfolding insert
sort [] = []
sort (f ∷ fs) = insert f (sort fs)

module _ (sv : Server) where
  -- The statements in their order, up to the first that fails.
  unfoldable pub run_statements : List Bytes → Db Bool
  unfolding query
  run_statements [] t = (true, t)
  run_statements (stmt ∷ stmts) t =
      let (ok, u) = query sv (Sql.migration stmt) t in
      if ok then run_statements stmts u else (false, u)

  -- A file that is not recorded yet: its statements, and then its record.
  unfoldable pub run_file : SqlFile → Db Bool
  unfolding run_statements statement
  run_file f t =
      let (ok, u) = run_statements (split_sql f.content) t in
      if ok
      then (true, (statement sv Sql.insert_migration (text f.version ∷ []) u).1)
      else (false, u)

  unfoldable pub is_recorded : SqlFile → Db Bool
  unfolding exec_select
  is_recorded f t =
      let (rows, u) = exec_select sv Sql.select_migration (f.version ∷ []) t in (has_row rows, u)
    where
      has_row : List (List Bytes) → Bool
      has_row [] = false
      has_row (row ∷ rows) = true

  unfoldable pub migrate_file : SqlFile → Db Bool
  unfolding is_recorded run_file
  migrate_file f t = let (done, u) = is_recorded f t in if done then (true, u) else run_file f u

  unfoldable pub migrate_files : List SqlFile → Db Bool
  unfolding migrate_file
  migrate_files [] t = (true, t)
  migrate_files (f ∷ fs) t =
      let (ok, u) = migrate_file f t in if ok then migrate_files fs u else (false, u)

  -- `none` is a directory that does not exist.
  unfoldable pub migrate : Option (List SqlFile) → Db Bool
  unfolding migrate_files sql_files sort
  migrate none t = (false, t)
  migrate (some files) t =
      if sv.connected
      then migrate_files (sort (sql_files files)) (query sv Sql.create_schema_migrations t).1
      else (false, t)
