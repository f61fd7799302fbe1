-- ===== src/Api/Json/RoundTrip.antt =====
-- The texts that src/api.cpp puts into JSON are read back.
use autodngconverter.Base.{
  ℕ, ◌≡◌, ◌≢◌, refl, ◌∙◌, ap, true, false, ◌||◌, Option, none, some, [], ◌∷◌, ◌++◌, arith, All,
  Bytes, leb, ◌==◌, if◌then◌else◌, append_assoc, append-nil,
}
use autodngconverter.Api.Json.{quote, backslash, escape_byte, json_escape}

-- The byte that an escape of JSON stands for; the others are no part of this format.
abbrev unescaped : ℕ → Option ℕ
unescaped c =
    if c == quote || c == backslash
    then some c
    else if c == b'n'
    then some b'\n'
    else if c == b'r'
    then some b'\r'
    else if c == b't'
    then some b'\t'
    else none

-- A JSON text behind its opening quote: the bytes, and what stands behind the closing quote. Bytes
-- below 32 may not stand in it.
abbrev pub json_text : Bytes → Bytes → Option (Bytes × Bytes)
json_text out [] = none
json_text out (c ∷ []) = if c == quote then some (out, []) else none
json_text out (c ∷ d ∷ s) = elim (c == quote) [
  | true ↦ some (out, d ∷ s)
  | false ↦ elim (c == backslash) [
    | true ↦ elim (unescaped d) [ some b ↦ json_text (out ++ b ∷ []) s | none ↦ none ]
    | false ↦ elim (leb 32 c) [ true ↦ json_text (out ++ c ∷ []) (d ∷ s) | false ↦ none ]
  ]
]

-- A byte that the format can hold: no control character, apart from newline, return and tab.
abbrev pub IsPrintable : ℕ → Type 0
IsPrintable c = (leb 32 c || c == b'\n' || c == b'\r' || c == b'\t') ≡ true

-- Two bytes of an escape, and one byte that stands for itself.
json_text-escaped :
    (d b : ℕ) (out s : Bytes)
    → unescaped d ≡ some b
    → json_text out (backslash ∷ d ∷ s) ≡ json_text (out ++ b ∷ []) s
json_text-escaped d b out s h = rw (json_text, h) refl

json_text-plain :
    (c d : ℕ) (out s : Bytes)
    → (c == quote) ≡ false
    → (c == backslash) ≡ false
    → leb 32 c ≡ true
    → json_text out (c ∷ d ∷ s) ≡ json_text (out ++ c ∷ []) (d ∷ s)
json_text-plain c d out s h k l = rw (json_text, h, k, l) refl

json_text-escape_byte :
    (c : ℕ) (out s : Bytes) (d : ℕ)
    → IsPrintable c
    → json_text out (escape_byte c (d ∷ s)) ≡ json_text (out ++ c ∷ []) (d ∷ s)
unfolding escape_byte
json_text-escape_byte c out s d h = ground (
  arith,
  json_text-plain c d out s,
  json_text-escaped c c out (d ∷ s),
  json_text-escaped b'n' b'\n' out (d ∷ s),
  json_text-escaped b'r' b'\r' out (d ∷ s),
  json_text-escaped b't' b'\t' out (d ∷ s),
)

escape_byte-append : (c : ℕ) (s t : Bytes) → escape_byte c s ++ t ≡ escape_byte c (s ++ t)
unfolding escape_byte
escape_byte-append c s t = ground arith

json_text-quote : (out rest : Bytes) → json_text out (quote ∷ rest) ≡ some (out ++ [], rest)
json_text-quote out [] = rw append-nil
json_text-quote out (d ∷ s) = rw append-nil

json_text-escaped_byte :
    (c : ℕ) (out t : Bytes)
    → t ≢ []
    → IsPrintable c
    → json_text out (escape_byte c t) ≡ json_text (out ++ c ∷ []) t
json_text-escaped_byte c out [] h k = absurd (h refl)
json_text-escaped_byte c out (d ∷ t) h k = json_text-escape_byte c out t d k

closed : (t rest : Bytes) → t ++ (quote ∷ rest) ≢ []
closed [] rest = λ e. cc
closed (c ∷ t) rest = λ e. cc

-- An escaped text behind an opening quote is read back by a reader of JSON, and it ends at the quote
-- that follows it, if it holds no control character apart from newline, return and tab.
pub json_text-json_escape :
    (s out rest : Bytes)
    → All IsPrintable s
    → json_text out (json_escape s ++ (quote ∷ rest)) ≡ some (out ++ s, rest)
unfolding json_escape
json_text-json_escape [] out rest h = json_text-quote out rest
json_text-json_escape (c ∷ s) out rest (h, hs) =
    ap (json_text out) (escape_byte-append c (json_escape s) (quote ∷ rest))
    ∙ json_text-escaped_byte c out (json_escape s ++ (quote ∷ rest)) (closed (json_escape s) rest) h
    ∙ json_text-json_escape s (out ++ c ∷ []) rest hs
    ∙ ap (λ w. some (w, rest)) (append_assoc out (c ∷ []) s)
