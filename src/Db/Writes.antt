-- ===== src/Db/Writes.antt =====
-- Which calls of src/db.cpp change the database.
use autodngconverter.Base.{
  ℕ, ◌≡◌, refl, ◌∙◌, Bool, true, false, List, [], ◌∷◌, ◌++◌, Bytes, ℤ, if◌then◌else◌, if-Holds,
}
use autodngconverter.Db.Server.{
  Sql, Cell, asked, executed, clock, pinged, Trace, Server, query, run, statement, exec_select,
}
use autodngconverter.Db.Operations.{
  get_import, get_import_by_sequence, get_import_by_hash, get_import_by_source_path,
  get_import_by_output_path,
}
use autodngconverter.Db.Listing.{
  count, get_stats, ping, bound, list_statement, list_rows, list_imports, filter_cells,
}

abbrev pub is_read : Sql → Bool
is_read Sql.select_by_sequence = true
is_read Sql.select_by_hash = true
is_read Sql.select_by_source_path = true
is_read Sql.select_by_output_path = true
is_read (Sql.select_by_id id) = true
is_read Sql.select_lock = true
is_read Sql.select_output_hash = true
is_read Sql.select_migration = true
is_read Sql.count_imports = true
is_read Sql.count_completed = true
is_read Sql.count_failed = true
is_read (Sql.list_imports status camera limit offset) = true
is_read _ = false

-- The calls that send another statement, newest first.
abbrev pub written : Trace → Trace
written [] = []
written (asked q ok ∷ t) = let rest = written t in if is_read q then rest else asked q ok ∷ rest
written (executed q cells ok ∷ t) =
    let rest = written t in if is_read q then rest else executed q cells ok ∷ rest
written (clock n ∷ t) = written t
written (pinged ok ∷ t) = written t

-- The history has grown by nothing that changes the database.
abbrev pub Reads {ℓ} : {A : Type ℓ} → Trace → A × Trace → Type 0
Reads t (a, u) = written u ≡ written t

is_read-list_statement :
    (page limit : ℕ) (status camera : Bytes)
    → is_read (list_statement page limit status camera) ≡ true
unfolding list_statement
is_read-list_statement page limit status camera = refl

module _ (sv : Server) where
  run-Reads :
      (q : Sql) (cells : List Cell) (t : Trace) → is_read q ≡ true → Reads t (run sv q cells t)
  unfolding run
  run-Reads q cells t h =
      if-Holds (Reads t) (sv.bind_param t q cells) _ _ (λ _. rw (h) refl) (λ _. refl)

  statement-Reads :
      (q : Sql) (cells : List Cell) (t : Trace)
      → is_read q ≡ true
      → Reads t (statement sv q cells t)
  unfolding statement
  statement-Reads q cells t h =
      if-Holds (Reads t) (sv.prepare t q) _ _ (λ _. run-Reads q cells t h) (λ _. refl)

  exec_select-Reads :
      (q : Sql) (params : List Bytes) (t : Trace)
      → is_read q ≡ true
      → Reads t (exec_select sv q params t)
  unfolding exec_select
  exec_select-Reads q params t h = statement-Reads q _ t h

  pub ping-Reads : (t : Trace) → Reads t (ping sv t)
  unfolding ping
  ping-Reads t = if-Holds (Reads t) sv.connected _ _ (λ _. refl) (λ _. refl)

  module _ (strtoll : Bytes → ℕ) where
    count-Reads : (q : Sql) (t : Trace) → is_read q ≡ true → Reads t (count sv strtoll q t)
    unfolding count query
    count-Reads q t h = rw (h) refl

    pub get_stats-Reads : (t : Trace) → Reads t (get_stats sv strtoll t)
    unfolding get_stats
    get_stats-Reads t =
        let u = (count sv strtoll Sql.count_imports t).1 in
        let v = (count sv strtoll Sql.count_completed u).1 in
        count-Reads Sql.count_failed v refl
        ∙ count-Reads Sql.count_completed u refl
        ∙ count-Reads Sql.count_imports t refl

    module _ (atoi : Bytes → ℤ) where
      list_rows-Reads :
          (q : Sql) (cells : List Cell) (t : Trace)
          → is_read q ≡ true
          → Reads t (list_rows sv strtoll atoi q cells t)
      unfolding list_rows
      list_rows-Reads q cells t h = rw (h) refl

      pub list_imports-Reads :
          (page limit : ℕ) (status camera : Bytes) (t : Trace)
          → Reads t (list_imports sv strtoll atoi page limit status camera t)
      unfolding list_imports
      list_imports-Reads page limit status camera t =
          let q = list_statement page limit status camera in
          let cells = filter_cells status ++ filter_cells camera in
          if-Holds (Reads t) (sv.prepare t q) _ _
            (λ _.
              if-Holds (Reads t) (bound sv q cells t) _ _
                (λ _. list_rows-Reads q cells t (is_read-list_statement page limit status camera))
                (λ _. refl))
            (λ _. refl)

      get_import-Reads :
          (q : Sql) (params : List Bytes) (t : Trace)
          → is_read q ≡ true
          → Reads t (get_import sv strtoll atoi q params t)
      unfolding get_import
      get_import-Reads q params t h = exec_select-Reads q params t h

      pub by_sequence-Reads :
          (s : Bytes) (t : Trace) → Reads t (get_import_by_sequence sv strtoll atoi s t)
      unfolding get_import_by_sequence
      by_sequence-Reads s t = get_import-Reads Sql.select_by_sequence (s ∷ []) t refl

      pub by_hash-Reads : (s : Bytes) (t : Trace) → Reads t (get_import_by_hash sv strtoll atoi s t)
      unfolding get_import_by_hash
      by_hash-Reads s t = get_import-Reads Sql.select_by_hash (s ∷ s ∷ []) t refl

      pub by_source_path-Reads :
          (s : Bytes) (t : Trace) → Reads t (get_import_by_source_path sv strtoll atoi s t)
      unfolding get_import_by_source_path
      by_source_path-Reads s t = get_import-Reads Sql.select_by_source_path (s ∷ []) t refl

      pub by_output_path-Reads :
          (s : Bytes) (t : Trace) → Reads t (get_import_by_output_path sv strtoll atoi s t)
      unfolding get_import_by_output_path
      by_output_path-Reads s t = get_import-Reads Sql.select_by_output_path (s ∷ []) t refl
