-- ===== src/Db/Listing/Pages.antt =====
-- The pages of `ListImports` of src/db.cpp, one after the other.
use autodngconverter.Base.{
  ℕ, zero, suc, ◌+◌, ◌-◌, ◌*◌, ◌%◌, ◌^◌, ◌<◌, ◌≡◌, refl, sym, ◌∙◌, ap, true, false, some, List, [],
  ◌∷◌, ◌++◌, map, arith, Bytes, ℤ, ltb, take, drop, to_string, show_int,
}
use autodngconverter.Pipeline.Types.{ImportRecord}
use autodngconverter.Db.Server.{Sql, list_imports, executed, Trace, Server, fetched}
use autodngconverter.Db.Rows.{vec_to_record}
use autodngconverter.Db.Listing.{wrap_int, list_statement, list_rows}
use autodngconverter.Db.Listing

-- What the server documents of `LIMIT` and `OFFSET`: of the rows in their order, `all`, the statement
-- without filters finds the ones behind the offset, up to the limit.
pub record ImportsTable (sv : Server) : Type 0 where
  pub all : List (List Bytes)
  pub prepared : (t : Trace) (q : Sql) → sv.prepare t q ≡ true
  pub executes : (t : Trace) (q : Sql) → sv.execute t q [] ≡ true
  pub results : (t : Trace) (q : Sql) → sv.bind_result t q ≡ true
  pub found :
      (t : Trace) (limit offset : ℕ)
      → sv.fetch
          (executed (list_imports false false (to_string limit) (to_string offset)) [] true ∷ t)
        ≡ map some (take limit (drop offset all))

fetched-some : (rows : List (List Bytes)) → fetched (map some rows) ≡ rows
unfolding fetched
fetched-some [] = refl
fetched-some (row ∷ rows) = ap (row ∷◌) (fetched-some rows)

map-append {ℓ κ} :
    {A : Type ℓ} {B : Type κ} (f : A → B) (xs ys : List A) → map f (xs ++ ys) ≡ map f xs ++ map f ys
map-append f [] ys = refl
map-append f (x ∷ xs) ys = ap (f x ∷◌) (map-append f xs ys)

take-nil {ℓ} : {A : Type ℓ} (n : ℕ) → take {A = A} n [] ≡ []
take-nil zero = refl
take-nil (suc n) = refl

suc_more : (n m : ℕ) → suc (n + m) ≡ suc n + m
suc_more n m = omega arith

take-more {ℓ} :
    {A : Type ℓ} (n m : ℕ) (xs : List A) → take n xs ++ take m (drop n xs) ≡ take (n + m) xs
take-more zero m xs = ap (λ n. take n xs) {x = m} {y = 0 + m} (omega arith)
take-more (suc n) m [] = take-nil m ∙ ap (λ k. take k []) (suc_more n m)
take-more (suc n) m (x ∷ xs) =
    ap (x ∷◌) (take-more n m xs) ∙ ap (λ k. take k (x ∷ xs)) (suc_more n m)

-- An offset that an `int` holds is printed as it is.
show_int-wrap_int : (n : ℕ) → n < 2 ^ 31 → show_int (wrap_int n) ≡ to_string n
unfolding show_int wrap_int
show_int-wrap_int n h = rw (small, lower) refl
  where
    small : n % 2 ^ 32 ≡ n
    small = omega (arith, h)

    lower : ltb n (2 ^ 31) ≡ true
    lower = ground (arith, h)

list_statement_lem :
    (k limit : ℕ)
    → k * limit < 2 ^ 31
    → list_statement (suc k) limit [] []
      ≡ list_imports false false (to_string limit) (to_string (k * limit))
unfolding list_statement
list_statement_lem k limit h =
    ap (list_imports false false (to_string limit))
      (ap (λ n. show_int (wrap_int (n * limit))) before ∙ show_int-wrap_int (k * limit) h)
  where
    before : suc k - 1 ≡ k
    before = omega arith

module _ (sv : Server) (table : ImportsTable sv) (strtoll : Bytes → ℕ) (atoi : Bytes → ℤ) where
  page_lem :
      (k limit : ℕ) (t : Trace)
      → k * limit < 2 ^ 31
      → (Listing.list_imports sv strtoll atoi (suc k) limit [] [] t).0
        ≡ map (vec_to_record strtoll atoi) (take limit (drop (k * limit) table.all))
  unfolding Listing.list_imports Listing.bound list_rows Listing.filter_cells
  page_lem k limit t h =
      let q = list_imports false false (to_string limit) (to_string (k * limit)) in
      rw
        (
          list_statement_lem k limit h,
          table.prepared t q,
          table.executes t q,
          table.results (executed q [] true ∷ t) q,
          table.found t limit (k * limit),
        )
        (ap (map (vec_to_record strtoll atoi))
          (fetched-some (take limit (drop (k * limit) table.all))))

  -- The pages from the first to the last, each asked for at a history of its own.
  abbrev pub pages : ℕ → (ℕ → Trace) → ℕ → List ImportRecord
  pages limit at zero = []
  pages limit at (suc k) =
      pages limit at k ++ (Listing.list_imports sv strtoll atoi (suc k) limit [] [] (at k)).0

  -- The first pages of a list without filters together are the first imports, each once and in their
  -- order, as long as the number of the pages times the limit is below 2^31, the statements succeed, the
  -- table does not change between the pages, and the server answers `LIMIT` and
  -- `OFFSET` as it documents.
  pub pages_lem :
      (limit : ℕ) (at : ℕ → Trace) (k : ℕ)
      → k * limit < 2 ^ 31
      → pages limit at k ≡ map (vec_to_record strtoll atoi) (take (k * limit) table.all)
  pages_lem limit at zero h =
      ap (λ n. map (vec_to_record strtoll atoi) (take n table.all)) {x = 0} {y = 0 * limit}
        (omega arith)
  pages_lem limit at (suc k) h =
      rw (pages_lem limit at k less, page_lem k limit (at k) less)
        (sym (
            map-append (vec_to_record strtoll atoi) (take (k * limit) table.all)
              (take limit (drop (k * limit) table.all)))
          ∙ ap (map (vec_to_record strtoll atoi))
              (take-more (k * limit) limit table.all ∙ ap (λ n. take n table.all) grow))
    where
      grow : k * limit + limit ≡ suc k * limit
      grow = omega arith

      less : k * limit < 2 ^ 31
      less = omega arith
