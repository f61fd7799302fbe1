-- ===== src/Util/SplitSql.antt =====
-- `split_sql` of src/util.cpp: the scanner that cuts an SQL dump into statements.
pub mod RoundTrip
use autodngconverter.Base.{
  ℕ, Bool, true, false, ◌||◌, not, List, [], ◌∷◌, ◌++◌, Bytes, is_empty, ◌==◌, if◌then◌else◌,
}
use autodngconverter.Util.Trim.{trim}

abbrev pub backslash : ℕ
backslash = b'\\'

abbrev pub semicolon : ℕ
semicolon = b';'

-- The local variables; `quote` is 0 outside a quoted text, and the quoting byte inside one.
pub record Splitter : Type 0 where
  pub out : List Bytes
  pub cur : Bytes
  pub quote : ℕ
  pub escaped : Bool

-- `trim(cur)`, kept if it is not empty.
unfoldable pub flush : List Bytes → Bytes → List Bytes
flush out cur = let t = trim cur in if is_empty t then out else out ++ t ∷ []

-- One round of `for (char c : sql)`.
unfoldable pub step : Splitter → ℕ → Splitter
unfolding flush
step s c =
    if s.escaped
    then record s { cur = s.cur ++ c ∷ []; escaped = false }
    else if c == backslash
    then record s { cur = s.cur ++ c ∷ []; escaped = true }
    else if not (s.quote == 0)
    then record s { cur = s.cur ++ c ∷ []; quote = if c == s.quote then 0 else s.quote }
    else if c == b'\'' || c == b'"' || c == b'`'
    then record s { cur = s.cur ++ c ∷ []; quote = c }
    else if c == semicolon
    then record s { out = flush s.out s.cur; cur = [] }
    else record s { cur = s.cur ++ c ∷ [] }

unfoldable pub run : Splitter → Bytes → Splitter
run s [] = s
run s (c ∷ sql) = run (step s c) sql

unfoldable pub split_sql : Bytes → List Bytes
unfolding flush
split_sql sql =
    let s = run (record { out = []; cur = []; quote = 0; escaped = false }) sql in flush s.out s.cur
