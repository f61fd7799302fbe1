-- ===== src/Api/Request.antt =====
-- The first half of `handle` of src/api.cpp: the loop that reads a request, and its parts. `recv`
-- answers by the pieces that it has given before, newest first: a piece, or none for an end, an error
-- or a timeout.
pub mod Reading
pub mod Token
use autodngconverter.Base.{
  ℕ, zero, suc, ◌+◌, ◌-◌, ◌^◌, ◌||◌, Bool, true, false, Option, none, some, List, [], ◌∷◌, ◌++◌,
  Bytes, codes, Map, is_empty, starts_with, bytes_eq, ℤ, pos, pos_part, neg_part, stol, length,
  take, drop, leb, ltb, ◌==◌, if◌then◌else◌,
}
use autodngconverter.Api.Query.{find, parse_query}

abbrev pub line_end : Bytes
line_end = b'\r' ∷ b'\n' ∷ []

abbrev pub header_end : Bytes
header_end = b'\r' ∷ b'\n' ∷ b'\r' ∷ b'\n' ∷ []

-- `find` of a text that is not empty: the position of its first occurrence.
unfoldable pub find_text : Bytes → Bytes → Option ℕ
find_text pat [] = none
find_text pat (c ∷ s) =
    let rest = find_text pat s in
    if starts_with pat (c ∷ s) then some 0 else elim rest [ none ↦ none | some i ↦ some (suc i) ]

-- The bytes up to the end of the text or to the pattern.
unfoldable pub up_to : Bytes → Bytes → Bytes
up_to pat s = elim (find_text pat s) [ none ↦ s | some i ↦ take i s ]

-- What `req += buf` appends of a piece: the bytes in front of the first NUL.
unfoldable pub before_nul : Bytes → Bytes
before_nul [] = []
before_nul (c ∷ s) = let rest = before_nul s in if c == 0 then [] else c ∷ rest

abbrev or_other : Option ℕ → Option ℕ → Option ℕ
or_other none o = o
or_other (some i) o = some i

abbrev or_zero : Option ℤ → ℤ
or_zero none = pos 0
or_zero (some n) = n

-- The number in the header: behind its 15 bytes, up to the end of its line.
unfoldable pub number_at : Bytes → Option ℕ → ℤ
number_at req none = pos 0
number_at req (some i) = or_zero (stol (drop 15 (up_to line_end (drop i req))))

unfoldable pub content_length : Bytes → ℤ
content_length req =
    number_at req
      (or_other (find_text (codes "Content-Length:") req) (find_text (codes "content-length:") req))

-- The variables of the loop, and the pieces that were received, newest first.
pub record State : Type 0 where
  pub req : Bytes
  pub total : ℕ
  pub headers_done : Bool
  pub cl : ℤ
  pub pieces : List Bytes

abbrev pub start : State
start = record { req = []; total = 0; headers_done = false; cl = pos 0; pieces = [] }

-- One piece: the text grows, and when it holds the end of the headers first, their length is read.
unfoldable pub receive : Bytes → State → State
receive piece s =
    let req = s.req ++ before_nul piece in
    let now =
      if s.headers_done
      then false
      else elim (find_text header_end req) [ none ↦ false | some i ↦ true ] in
    record {
      req = req;
      total = s.total + length piece;
      headers_done = if s.headers_done then true else now;
      cl = if now then content_length req else s.cl;
      pieces = piece ∷ s.pieces;
    }

-- The position behind the headers; without them `npos + 4` wraps around.
unfoldable pub header_len : Bytes → ℕ
header_len req = elim (find_text header_end req) [ none ↦ 3 | some i ↦ i + 4 ]

-- Has the whole body arrived? A sum above the values of a `long` wraps around to a negative one.
unfoldable pub is_complete : State → Bool
is_complete s =
    if s.headers_done
    then leb (2 ^ 63) (header_len s.req + pos_part s.cl)
      || leb (header_len s.req + pos_part s.cl) (length s.req + neg_part s.cl)
    else false

-- The loop; `none` is an end of the fuel.
unfoldable pub read : ℕ → (List Bytes → Option Bytes) → State → Option State
read zero recv s = none
read (suc fuel) recv s = elim (ltb s.total 65536) [
  | false ↦ some s
  | true ↦ elim (recv s.pieces) [
    | none ↦ some s
    | some piece ↦ elim (is_complete (receive piece s)) [
      | true ↦ some (receive piece s)
      | false ↦ read fuel recv (receive piece s)
    ]
  ]
]

-- A piece has at least one byte, so that 65536 rounds reach the bound.
unfoldable pub read_request : (List Bytes → Option Bytes) → Option State
read_request recv = read 65537 recv start

pub record Request : Type 0 where
  pub method : Bytes
  pub path : Bytes
  pub query : Map Bytes Bytes
  -- The whole text.
  pub text : Bytes

-- The path and the query of the target.
unfoldable pub split_target : Bytes → Bytes × Bytes
split_target full = elim (find b'?' full) [
  | none ↦ (full, [])
  | some i ↦ (take i full, drop (suc i) full)
]

abbrev pub request_of : Bytes → ℕ → Bytes → Request
request_of req i full = record {
  method = take i req;
  path = (split_target full).0;
  query = parse_query (split_target full).1;
  text = req;
}

-- The second space, searched behind the first.
abbrev pub request_behind : Bytes → ℕ → Option ℕ → Option Request
request_behind req i none = none
request_behind req i (some j) = some (request_of req i (take j (drop (suc i) req)))

abbrev pub request_from : Bytes → Option ℕ → Option Request
request_from req none = none
request_from req (some i) = request_behind req i (find b' ' (drop (suc i) req))

-- The first two spaces end the method and the target; `none` is a request without them.
unfoldable pub parse_request : Bytes → Option Request
parse_request req = request_from req (find b' ' req)

-- The text behind the headers.
unfoldable pub body : Bytes → Bytes
body req = elim (find_text header_end req) [ none ↦ [] | some i ↦ drop (i + 4) req ]

-- The token: behind "Bearer ", up to the end of the line.
abbrev pub token_behind : Bytes → Option ℕ → Option Bytes
token_behind m none = none
token_behind m (some j) = some (up_to line_end (drop (j + 7) m))

-- The first "Bearer " is searched from the header on.
abbrev pub token_in : Bytes → Option ℕ → Option Bytes
token_in req none = none
token_in req (some i) = token_behind (drop i req) (find_text (codes "Bearer ") (drop i req))

unfoldable pub bearer_token : Bytes → Option Bytes
bearer_token req = token_in req (find_text (codes "Authorization:") req)

abbrev pub is_token : Bytes → Option Bytes → Bool
is_token token none = false
is_token token (some tok) = bytes_eq tok token

unfoldable pub has_token : Bytes → Bytes → Bool
has_token token req = is_token token (bearer_token req)

-- Every path but that of the liveness probe asks for the token, if one is configured.
unfoldable pub is_allowed : Bytes → Request → Bool
is_allowed token r =
    if bytes_eq r.path (codes "/health")
    then true
    else if is_empty token
    then true
    else has_token token r.text
