-- ===== src/Db/Migrate/Tests.antt =====
-- Tests of `Store::Migrate` of src/db.cpp, at a server that keeps its table in the history.
use autodngconverter.Base.{
  ◌≡◌, refl, Bool, true, false, Option, none, some, List, [], ◌∷◌, Bytes, codes, bytes_eq,
  bytes_eq_refl, if◌then◌else◌, if-Holds,
}
use autodngconverter.Util.SplitSql.{split_sql}
use autodngconverter.Util.SplitSql
use autodngconverter.Util.Trim
use autodngconverter.Db.Server.{
  Sql, text, executed, Trace, Server, query, run, statement, exec_select, fetched,
}
use autodngconverter.Db.Migrate.{
  SqlFile, is_sql, sql_files, before, insert, sort, run_statements, run_file, is_recorded,
  migrate_file, migrate_files, migrate,
}
use autodngconverter.Db.Migrate.Once.{AllRecorded, IsQuiet, migrate-IsQuiet}
use autodngconverter.Db.Migrate.Table.{SchemaTable, sent}

abbrev recorded : Trace → Bytes → Bool
recorded [] v = false
recorded (executed Sql.insert_migration (text w ∷ []) true ∷ t) v =
    let earlier = recorded t v in if bytes_eq w v then true else earlier
recorded (c ∷ t) v = recorded t v

abbrev rows : Trace → List (Option (List Bytes))
rows (executed Sql.select_migration (text v ∷ []) true ∷ t) =
    if recorded t v then some (codes "1" ∷ []) ∷ [] else []
rows t = []

abbrev server : Server
server = record {
  connected = true;
  prepare = λ t q. true;
  bind_param = λ t q cells. true;
  bind_result = λ t q. true;
  execute = λ t q cells. true;
  store_result = λ t. true;
  insert_id = λ t. 7;
  fetch = rows;
  query = λ t q. true;
  row = λ t. none;
  lock_row = λ t. none;
  now = λ t. 100;
  ping = λ t. true;
  random_token = λ t. [];
  secure_random_token = λ t. [];
}

recorded-stays :
    (t : Trace) (v w : Bytes) (ok : Bool)
    → recorded t w ≡ true
    → recorded (executed Sql.insert_migration (text v ∷ []) ok ∷ t) w ≡ true
recorded-stays t v w false h = h
recorded-stays t v w true h =
    if-Holds (λ b. b ≡ true) (bytes_eq v w) true (recorded t w) (λ _. refl) (λ _. h)

abbrev table : SchemaTable server
table = record {
  view = recorded;
  prepared = λ t q. refl;
  bound = λ t q cells. refl;
  results = λ t q. refl;
  executes = λ t v. refl;
  found = λ t v. refl;
  inserted = λ t v. rw (bytes_eq_refl v) refl;
  stays = recorded-stays;
  selected = λ t v w. refl;
  kept = λ t q ok w. refl;
}

abbrev first : SqlFile
first = record { version = codes "1.sql"; content = codes "A;B;" }

abbrev second : SqlFile
second = record { version = codes "2.sql"; content = codes "C" }

abbrev readme : SqlFile
readme = record { version = codes "sql"; content = codes "D" }

abbrev files : List SqlFile
files = second ∷ readme ∷ first ∷ []

abbrev statements : List Bytes
statements = codes "C" ∷ codes "B" ∷ codes "A" ∷ []

in_order : sent (migrate server (some files) []).1 ≡ statements
unfolding migrate sql_files is_sql sort insert before migrate_files migrate_file is_recorded
    run_file run_statements query statement run exec_select fetched split_sql SplitSql.run
    SplitSql.step SplitSql.flush Trim.trim bytes_eq
in_order = refl

migrate-IsQuiet_example :
    AllRecorded server table (sort (sql_files files)) (migrate server (some files) []).1
    × IsQuiet server table
        (migrate server (some files) []).1
        (migrate server (some files) (migrate server (some files) []).1)
unfolding migrate sql_files is_sql sort insert before migrate_files migrate_file is_recorded
    run_file run_statements query statement run exec_select fetched split_sql SplitSql.run
    SplitSql.step SplitSql.flush Trim.trim bytes_eq
migrate-IsQuiet_example = migrate-IsQuiet server table files [] refl refl (refl, (refl, tt))
