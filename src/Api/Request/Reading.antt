-- ===== src/Api/Request/Reading.antt =====
-- The loop of src/api.cpp that reads a request ends, and why it ends.
use autodngconverter.Base.{
  ℕ, zero, suc, ◌+◌, ◌≤◌, ◌<◌, ◌≡◌, ◌≢◌, ◌^◌, ◌||◌, refl, sym, ◌∙◌, starts_with, pos_part, neg_part,
  leb, take, drop, length-drop, leb→le, take-append-drop, if◌then◌else◌, ap, ◌⊎◌, inl, inr, Bool,
  true, false, Option, none, some, List, [], ◌∷◌, ◌++◌, arith, Bytes, length, length-append, ltb,
  ltb→lt, Bool-cases,
}
use autodngconverter.Api.Request.{
  find_text, header_end, header_len, before_nul, State, start, receive, is_complete, read,
  read_request,
}
use autodngconverter.Api.Request.Token.{find_text-Stands, starts_with-splits, fails}
use mathlib.Core.Path.{subst}

-- `recv` with its buffer of 4095 bytes: a piece has at least one byte and fits.
abbrev pub FitsBuffer : (List Bytes → Option Bytes) → Type 0
FitsBuffer recv =
    (pieces : List Bytes) (piece : Bytes)
    → recv pieces ≡ some piece
    → (1 ≤ length piece) × (length piece ≤ 4095)

-- The pieces joined, each up to its first NUL.
abbrev pub joined : List Bytes → Bytes
joined [] = []
joined (piece ∷ pieces) = joined pieces ++ before_nul piece

-- What holds of the variables after every piece.
abbrev IsJoined : State → Type 0
IsJoined s =
    (s.req ≡ joined s.pieces)
    × (length s.req ≤ s.total)
    × (s.total ≤ 65535 + 4095)
    × (s.headers_done ≡ true → find_text header_end s.req ≢ none)

-- A blank line stands behind the headers, and behind it at least as many bytes as the length that was
-- read; or this length and that of the headers exceed a `long` together.
abbrev pub IsWhole : State → Type 0
IsWhole s =
    (head : Bytes) × (text : Bytes) × (s.req ≡ head ++ (b'\r' ∷ b'\n' ∷ b'\r' ∷ b'\n' ∷ text))
    × ((pos_part s.cl ≤ length text + neg_part s.cl) ⊎ (2 ^ 63 ≤ length s.req + pos_part s.cl))

-- Nothing more comes, or the bound is reached, or the request is whole.
abbrev pub HasEnded : (List Bytes → Option Bytes) → State → Type 0
HasEnded recv s = (recv s.pieces ≡ none) ⊎ ((65536 ≤ s.total) ⊎ IsWhole s)

abbrev pub Outcome : (List Bytes → Option Bytes) → Option State → Type 0
Outcome recv none = ⊥
Outcome recv (some s) = (s.req ≡ joined s.pieces) × (length s.req ≤ 65535 + 4095) × HasEnded recv s

length-before_nul : (s : Bytes) → length (before_nul s) ≤ length s
unfolding before_nul
length-before_nul [] = omega arith
length-before_nul (c ∷ s) = ground (arith, length-before_nul s)

starts_with-append : (pat s t : Bytes) → starts_with pat s ≡ true → starts_with pat (s ++ t) ≡ true
unfolding starts_with
starts_with-append [] s t h = refl
starts_with-append (p ∷ pat) [] t h = absurd cc
starts_with-append (p ∷ pat) (c ∷ s) t h = ground (arith, starts_with-append pat s t)

-- A text that is found stays found when the text grows.
find_text-append : (pat s t : Bytes) → find_text pat (s ++ t) ≡ none → find_text pat s ≡ none
unfolding find_text
find_text-append pat [] t h = refl
find_text-append pat (c ∷ s) t h =
    let (e, f) = fails (starts_with pat (c ∷ (s ++ t))) (find_text pat (s ++ t)) h in
    let g = starts_with-append pat (c ∷ s) t in
    elim (Bool-cases (starts_with pat (c ∷ s))) [
      | inl k ↦ absurd (let x : true ≡ false = sym (g k) ∙ e in cc)
      | inr k ↦ rw (k, find_text-append pat s t f) refl
    ]

-- Behind a piece the headers are done only if their end stands in the text.
headers_done-receive :
    (piece : Bytes) (s : State)
    → (s.headers_done ≡ true → find_text header_end s.req ≢ none)
    → (receive piece s).headers_done ≡ true
    → find_text header_end (receive piece s).req ≢ none
unfolding receive
headers_done-receive piece s f h n = elim (Bool-cases s.headers_done) [
  | inl k ↦ f k (find_text-append header_end s.req (before_nul piece) n)
  | inr k ↦ absurd (go (s.headers_done) k h)
]
  where
    go :
        (b : Bool)
        → b ≡ false
        → (if b
            then true
            else (if b then false else elim (find_text header_end (s.req ++ before_nul piece)) [
              | none ↦ false
              | some i ↦ true
            ]))
          ≡ true
        → ⊥
    go true e h = absurd cc
    go false e h =
        let x : false ≡ true = ap (λ o. elim o [ none ↦ false | some i ↦ true ]) (sym n) ∙ h in
        absurd cc

header_len_lem : (req : Bytes) (i : ℕ) → find_text header_end req ≡ some i → header_len req ≡ i + 4
unfolding header_len
header_len_lem req i e = ap (λ o. elim o [ none ↦ 3 | some j ↦ j + 4 ]) e

passes :
    (done : Bool) (h p n q : ℕ)
    → (if done then leb (2 ^ 63) (h + p) || leb (h + p) (n + q) else false) ≡ true
    → (done ≡ true) × ((h + p ≤ n + q) ⊎ (2 ^ 63 ≤ h + p))
passes true h p n q k = (
  refl,
  elim (Bool-cases (leb (h + p) (n + q))) [
    | inl l ↦ inl (leb→le (h + p) (n + q) l)
    | inr l ↦ inr (leb→le (2 ^ 63) (h + p) (ground (arith, l)))
  ],
)
passes false h p n q k = absurd cc

-- A text that passes the test is whole.
is_complete-IsWhole :
    (s : State)
    → (s.headers_done ≡ true → find_text header_end s.req ≢ none)
    → is_complete s ≡ true
    → IsWhole s
unfolding is_complete
is_complete-IsWhole s f h =
    let (done, sum) =
      passes s.headers_done (header_len s.req) (pos_part s.cl) (length s.req) (neg_part s.cl) h in
    go (find_text header_end s.req) refl (f done) sum
  where
    go :
        (o : Option ℕ)
        → find_text header_end s.req ≡ o
        → find_text header_end s.req ≢ none
        → (header_len s.req + pos_part s.cl ≤ length s.req + neg_part s.cl)
          ⊎ (2 ^ 63 ≤ header_len s.req + pos_part s.cl)
        → IsWhole s
    go none e n sum = absurd (n e)
    go (some i) e n sum =
        let at =
          starts_with-splits header_end (drop i s.req) (find_text-Stands header_end s.req i e) in
        let tail = drop 4 (drop i s.req) in
        let rest : length (drop i s.req) ≡ 4 + length tail = ap length at ∙ omega arith in
        let size = header_len_lem s.req i e in
        (
          take i s.req,
          tail,
          sym (take-append-drop i s.req) ∙ ap (take i s.req ++◌) at,
          elim sum [
            | inl l ↦ inl (omega (arith, rest, size, length-drop i s.req, l))
            | inr l ↦ inr (omega (arith, rest, size, length-drop i s.req, l))
          ],
        )

receive-IsJoined :
    (piece : Bytes) (s : State)
    → s.total < 65536
    → length piece ≤ 4095
    → IsJoined s
    → IsJoined (receive piece s)
unfolding receive
receive-IsJoined piece s l k (e, b, c, f) = (
  ap (λ r. r ++ before_nul piece) e,
  omega (arith, length-append s.req (before_nul piece), length-before_nul piece),
  omega arith,
  headers_done-receive piece s f,
)

module _ (recv : List Bytes → Option Bytes) (fits : FitsBuffer recv) where
  total-receive : (piece : Bytes) (s : State) → (receive piece s).total ≡ s.total + length piece
  unfolding receive
  total-receive piece s = refl

  Outcome-ends :
      (fuel : ℕ) (s : State) (b : Bool)
      → is_complete s ≡ b
      → IsJoined s
      → Outcome recv (read fuel recv s)
      → Outcome recv (elim b [ true ↦ some s | false ↦ read fuel recv s ])
  Outcome-ends fuel s true h (e, b, c, f) k =
      (e, omega arith, inr (inr (is_complete-IsWhole s f h)))
  Outcome-ends fuel s false h j k = k

  read-Outcome :
      (fuel : ℕ) (s : State)
      → 1 ≤ fuel
      → 65536 < fuel + s.total
      → IsJoined s
      → Outcome recv (read fuel recv s)
  unfolding read
  read-Outcome zero s o h j = absurd (omega arith)
  read-Outcome (suc fuel) s o h (e, b, c, f) = elim (Bool-cases (ltb s.total 65536)) [
    | inr g ↦
        subst (λ x. Outcome recv (elim x [ false ↦ some s | true ↦ on_answer (recv s.pieces) ]))
          (sym g) (e, omega arith, inr (inl (ground (arith, g))))
    | inl l ↦
        subst (λ x. Outcome recv (elim x [ false ↦ some s | true ↦ on_answer (recv s.pieces) ]))
          (sym l)
          (answered (ltb→lt s.total 65536 l) (recv s.pieces) refl
            (λ s' h' j'. read-Outcome fuel s' (omega (arith, ltb→lt s.total 65536 l)) h' j'))
  ]
    where
      on_piece : Bytes → Bool → Option State
      on_piece piece complete = elim complete [
        | true ↦ some (receive piece s)
        | false ↦ read fuel recv (receive piece s)
      ]

      on_answer : Option Bytes → Option State
      on_answer o = elim o [
        | none ↦ some s
        | some piece ↦ on_piece piece (is_complete (receive piece s))
      ]

      answered :
          s.total < 65536
          → (o : Option Bytes) → recv s.pieces ≡ o
          → ((s' : State)
              → 65536 < fuel + s'.total
              → IsJoined s'
              → Outcome recv (read fuel recv s'))
          → Outcome recv (on_answer o)
      answered l none n rec = (e, omega arith, inl n)
      answered l (some piece) k rec =
          let (low, high) = fits s.pieces piece k in
          let j = receive-IsJoined piece s l high (e, b, c, f) in
          let more : 65536 < fuel + (receive piece s).total =
            omega (arith, total-receive piece s) in
          Outcome-ends fuel (receive piece s) (is_complete (receive piece s)) refl j
            (rec (receive piece s) more j)

  -- Whatever pieces arrive, the reading of a request ends after at most 65537 rounds: the request is the
  -- pieces joined, each cut at its first NUL, it has at most 69630 bytes, and it ends since nothing more
  -- came, since 65536 bytes or more came, or since behind the blank line at least as many bytes stand as
  -- the length that was read, unless that length overflows a `long`. A piece has between 1
  -- and 4095 bytes.
  pub read_request-Outcome : Outcome recv (read_request recv)
  unfolding read_request
  read_request-Outcome =
      read-Outcome 65537 start (omega arith) (omega arith)
        (refl, omega arith, omega arith, λ h. absurd cc)
