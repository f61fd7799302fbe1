-- ===== src/Db/Listing.antt =====
-- `GetStats`, `ListImports` and `Ping` of src/db.cpp.
pub mod Pages
mod Tests
use autodngconverter.Base.{
  ℕ, zero, suc, ◌-◌, ◌*◌, ◌%◌, ◌^◌, Bool, true, false, not, Option, none, some, List, [], ◌∷◌, ◌++◌,
  map, Bytes, is_empty, ℤ, pos, negsuc, ltb, to_string, show_int, if◌then◌else◌,
}
use autodngconverter.Pipeline.Types.{ImportRecord}
use autodngconverter.Db.Server.{
  Sql, Cell, text, executed, pinged, Trace, Server, Db, query, fetched,
}
use autodngconverter.Db.Rows.{vec_to_record}

pub record Stats : Type 0 where
  pub total : ℕ
  pub completed : ℕ
  pub failed : ℕ
  pub queue_depth : ℕ

-- A sum or product of `int` values, as the machine wraps it.
unfoldable pub wrap_int : ℕ → ℤ
wrap_int n = let r = n % 2 ^ 32 in if ltb r (2 ^ 31) then pos r else negsuc (2 ^ 32 - 1 - r)

-- The parameter of a filter that is set.
unfoldable pub filter_cells : Bytes → List Cell
filter_cells s = if is_empty s then [] else text s ∷ []

-- The statement for a page and a limit that are at least 1, as the one caller makes them.
unfoldable pub list_statement : ℕ → ℕ → Bytes → Bytes → Sql
list_statement page limit status camera =
    Sql.list_imports (not (is_empty status)) (not (is_empty camera)) (to_string limit)
      (show_int (wrap_int ((page - 1) * limit)))

module _ (sv : Server) where
  -- `mysql_ping`, which is not called without a connection.
  unfoldable pub ping : Db Bool
  ping t = if sv.connected then (sv.ping t, pinged (sv.ping t) ∷ t) else (false, t)

  -- Parameters are bound only if there are some.
  unfoldable pub bound : Sql → List Cell → Trace → Bool
  bound q [] t = true
  bound q (c ∷ cells) t = sv.bind_param t q (c ∷ cells)

  module _ (strtoll : Bytes → ℕ) where
    -- The number in the first column of the first row, and 0 without a row.
    unfoldable pub counted : Option (List (Option Bytes)) → ℕ
    counted (some (some n ∷ cells)) = strtoll n
    counted _ = 0

    unfoldable pub count : Sql → Db ℕ
    unfolding query counted
    count q t = let (ok, u) = query sv q t in (if ok then counted (sv.row u) else 0, u)

    unfoldable pub get_stats : Db Stats
    unfolding count
    get_stats t =
        let (total, u) = count Sql.count_imports t in
        let (completed, v) = count Sql.count_completed u in
        let (failed, w) = count Sql.count_failed v in
        (record { total = total; completed = completed; failed = failed; queue_depth = 0 }, w)

    module _ (atoi : Bytes → ℤ) where
      -- The execution, and the rows in front of the first fetch that fails.
      unfoldable pub list_rows : Sql → List Cell → Db (List ImportRecord)
      unfolding fetched
      list_rows q cells t =
          let ok = sv.execute t q cells in
          let u = executed q cells ok ∷ t in
          (
            if ok
                then (if sv.bind_result u q
                    then map (vec_to_record strtoll atoi) (fetched (sv.fetch u))
                    else [])
                else [],
            u,
          )

      unfoldable pub list_imports : ℕ → ℕ → Bytes → Bytes → Db (List ImportRecord)
      unfolding bound list_rows filter_cells
      list_imports page limit status camera t =
          let q = list_statement page limit status camera in
          let cells = filter_cells status ++ filter_cells camera in
          if sv.prepare t q
          then (if bound q cells t then list_rows q cells t else ([], t))
          else ([], t)
