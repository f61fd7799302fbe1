-- ===== src/Util/SplitSql/RoundTrip.antt =====
-- What `split_sql` of src/util.cpp makes of a dump, against a grammar of statements.
use mathlib.Core.List.{cons-ne-nil}
use autodngconverter.Base.{
  ℕ, ◌≡◌, ◌≢◌, refl, ap, ◌∙◌, ◌⊎◌, inl, inr, List, [], ◌∷◌, ◌++◌, append_assoc, append-nil, arith,
  All, All-append, Bytes, false,
}
use autodngconverter.Util.Trim.{trim, IsTrimmed, trim-eq, trim-IsTrimmed}
use autodngconverter.Util.SplitSql.{backslash, semicolon, Splitter, flush, step, run, split_sql}

-- The grammar of one statement, apart from the scanner: `Lexes q s` holds if `s`, read inside a
-- text quoted by `q` (or outside of one, for 0), has no bare semicolon and ends outside of quotes.
abbrev pub IsQuote : ℕ → Type 0
IsQuote c = (c ≡ b'\'') ⊎ (c ≡ b'"') ⊎ (c ≡ b'`')

pub data Lexes : ℕ → Bytes → Type 0 where
  stop : {q : ℕ} → q ≡ 0 → Lexes q []
  escape : {q : ℕ} (b c : ℕ) {s : Bytes} → b ≡ backslash → Lexes q s → Lexes q (b ∷ c ∷ s)
  plain :
      {q : ℕ} (c : ℕ) {s : Bytes}
      → q ≡ 0
      → c ≢ backslash
      → c ≢ semicolon
      → ¬ IsQuote c
      → Lexes q s
      → Lexes q (c ∷ s)
  opening : {q : ℕ} (c : ℕ) {s : Bytes} → q ≡ 0 → IsQuote c → Lexes c s → Lexes q (c ∷ s)
  inside : {q : ℕ} (c : ℕ) {s : Bytes} → q ≢ 0 → c ≢ backslash → c ≢ q → Lexes q s → Lexes q (c ∷ s)
  closing :
      {q z : ℕ} (c : ℕ) {s : Bytes}
      → q ≢ 0
      → c ≢ backslash
      → c ≡ q
      → z ≡ 0
      → Lexes z s
      → Lexes q (c ∷ s)

abbrev at : List Bytes → Bytes → ℕ → Splitter
at out cur q = record { out = out; cur = cur; quote = q; escaped = false }

step_plain :
    (out : List Bytes) (cur : Bytes) (q c : ℕ)
    → q ≡ 0
    → c ≢ backslash
    → c ≢ semicolon
    → ¬ IsQuote c
    → step (at out cur q) c ≡ at out (cur ++ c ∷ []) q
unfolding step
step_plain out cur q c h b k n = ground (arith, n)

step_opening :
    (out : List Bytes) (cur : Bytes) (q c : ℕ)
    → q ≡ 0
    → IsQuote c
    → step (at out cur q) c ≡ at out (cur ++ c ∷ []) c
unfolding step
step_opening out cur q c h k = ground arith

step_inside :
    (out : List Bytes) (cur : Bytes) (q c : ℕ)
    → q ≢ 0
    → c ≢ backslash
    → c ≢ q
    → step (at out cur q) c ≡ at out (cur ++ c ∷ []) q
unfolding step
step_inside out cur q c h b k = ground arith

step_closing :
    (out : List Bytes) (cur : Bytes) (q c z : ℕ)
    → q ≢ 0
    → c ≢ backslash
    → c ≡ q
    → z ≡ 0
    → step (at out cur q) c ≡ at out (cur ++ c ∷ []) z
unfolding step
step_closing out cur q c z h b k e = ground arith

step_escape :
    (out : List Bytes) (cur : Bytes) (q b c : ℕ)
    → b ≡ backslash
    → step (step (at out cur q) b) c ≡ at out ((cur ++ b ∷ []) ++ c ∷ []) q
unfolding step
step_escape out cur q b c h = ground arith

-- One byte that is copied, in front of a text that is copied.
run_copy :
    (out : List Bytes) (cur s rest : Bytes) (q r c : ℕ)
    → step (at out cur q) c ≡ at out (cur ++ c ∷ []) r
    → run (at out (cur ++ c ∷ []) r) (s ++ rest) ≡ run (at out ((cur ++ c ∷ []) ++ s) 0) rest
    → run (at out cur q) (c ∷ (s ++ rest)) ≡ run (at out (cur ++ (c ∷ s)) 0) rest
unfolding run
run_copy out cur s rest q r c e h =
    ap (λ p. run p (s ++ rest)) e
    ∙ h
    ∙ ap (λ t. run (at out t 0) rest) (append_assoc cur (c ∷ []) s)

run_escape :
    (out : List Bytes) (cur s rest : Bytes) (q b c : ℕ)
    → b ≡ backslash
    → run (at out ((cur ++ b ∷ []) ++ c ∷ []) q) (s ++ rest)
      ≡ run (at out (((cur ++ b ∷ []) ++ c ∷ []) ++ s) 0) rest
    → run (at out cur q) (b ∷ c ∷ (s ++ rest)) ≡ run (at out (cur ++ (b ∷ c ∷ s)) 0) rest
unfolding run
run_escape out cur s rest q b c e h =
    ap (λ p. run p (s ++ rest)) (step_escape out cur q b c e)
    ∙ h
    ∙ ap (λ t. run (at out t 0) rest)
        (append_assoc (cur ++ b ∷ []) (c ∷ []) s ∙ append_assoc cur (b ∷ []) (c ∷ s))

-- The scanner copies such a text whole.
run-Lexes :
    {q : ℕ} {s : Bytes} (out : List Bytes) (cur rest : Bytes)
    → Lexes q s
    → run (at out cur q) (s ++ rest) ≡ run (at out (cur ++ s) 0) rest
run-Lexes out cur rest (stop e) = rw append-nil (rw e)
run-Lexes {q} out cur rest (escape b c {s} e l) =
    run_escape out cur s rest q b c e (run-Lexes out _ rest l)
run-Lexes {q} out cur rest (plain c {s} e b k n l) =
    run_copy out cur s rest q q c (step_plain out cur q c e b k n) (run-Lexes out _ rest l)
run-Lexes {q} out cur rest (opening c {s} e k l) =
    run_copy out cur s rest q c c (step_opening out cur q c e k) (run-Lexes out _ rest l)
run-Lexes {q} out cur rest (inside c {s} e b k l) =
    run_copy out cur s rest q q c (step_inside out cur q c e b k) (run-Lexes out _ rest l)
run-Lexes {q} out cur rest (closing {z = z} c {s} e b k w l) =
    run_copy out cur s rest q z c (step_closing out cur q c z e b k w) (run-Lexes out _ rest l)

run-semicolon :
    (out : List Bytes) (cur rest : Bytes)
    → run (at out cur 0) (semicolon ∷ rest) ≡ run (at (flush out cur) [] 0) rest
unfolding run step
run-semicolon out cur rest = refl

-- A statement as it may stand in a dump: lexically closed, trimmed and not empty.
pub record IsStatement (s : Bytes) : Type 0 where
  pub lexes : Lexes 0 s
  pub trimmed : IsTrimmed s
  pub ne_nil : s ≢ []

flush-IsStatement : (out : List Bytes) (s : Bytes) → IsStatement s → flush out s ≡ out ++ s ∷ []
unfolding flush
flush-IsStatement out [] h = absurd (h.ne_nil refl)
flush-IsStatement out (c ∷ s) h = rw (trim-eq (c ∷ s) h.trimmed)

-- A dump: every statement with a semicolon behind it.
abbrev pub dump : List Bytes → Bytes
dump [] = []
dump (s ∷ ss) = s ++ (semicolon ∷ dump ss)

run-dump :
    (out : List Bytes) (ss : List Bytes)
    → All IsStatement ss
    → run (at out [] 0) (dump ss) ≡ at (out ++ ss) [] 0
run-dump out [] h = rw append-nil (unfold run in refl)
run-dump out (s ∷ ss) (h, hs) =
    run-Lexes out [] (semicolon ∷ dump ss) h.lexes
    ∙ run-semicolon out s (dump ss)
    ∙ rw (flush-IsStatement out s h)
        (run-dump (out ++ s ∷ []) ss hs ∙ ap (λ l. at l [] 0) (append_assoc out (s ∷ []) ss))

-- Splitting a dump of closed, trimmed, non-empty statements gives these statements back, whatever
-- semicolons stand in their quoted texts and behind their backslashes.
pub split_sql-dump : (ss : List Bytes) → All IsStatement ss → split_sql (dump ss) ≡ ss
unfolding split_sql trim
split_sql-dump ss h = rw (run-dump [] ss h) (refl)

abbrev pub IsPiece : Bytes → Type 0
IsPiece t = IsTrimmed t × (t ≢ [])

flush-IsPiece : (out : List Bytes) (cur : Bytes) → All IsPiece out → All IsPiece (flush out cur)
flush-IsPiece out cur h = go (trim cur) refl
  where
    go : (t : Bytes) → trim cur ≡ t → All IsPiece (flush out cur)
    go [] e = unfold flush in rw e h
    go (c ∷ t) e =
        unfold flush in
        rw e (
          All-append IsPiece out ((c ∷ t) ∷ []) h
            ((rw e at (trim-IsTrimmed cur), cons-ne-nil c t), tt))

-- A round leaves the statements as they are, or adds the current one.
step_out : (s : Splitter) (c : ℕ) → ((step s c).out ≡ s.out) ⊎ ((step s c).out ≡ flush s.out s.cur)
unfolding step
step_out s c = ground arith

step-IsPiece : (s : Splitter) (c : ℕ) → All IsPiece s.out → All IsPiece (step s c).out
step-IsPiece s c h = elim (step_out s c) [
  | inl same ↦ rw same h
  | inr more ↦ rw more (flush-IsPiece s.out s.cur h)
]

run-IsPiece : (s : Splitter) (sql : Bytes) → All IsPiece s.out → All IsPiece (run s sql).out
unfolding run
run-IsPiece s [] h = h
run-IsPiece s (c ∷ sql) h = run-IsPiece (step s c) sql (step-IsPiece s c h)

-- Every statement that comes out, of any dump, is trimmed and not empty.
pub split_sql-IsPiece : (sql : Bytes) → All IsPiece (split_sql sql)
unfolding split_sql
split_sql-IsPiece sql = flush-IsPiece _ _ (run-IsPiece _ sql tt)
