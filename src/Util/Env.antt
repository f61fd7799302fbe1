-- ===== src/Util/Env.antt =====
-- The environment and the `.env` loader of src/util.cpp. The environment is a map from names to
-- values, as `getenv` and `setenv` show it; texts hold no NUL byte.
use autodngconverter.Base.{
  ℕ, ◌≡◌, ◌≢◌, refl, Bool, true, false, ◌||◌, Option, none, some, List, [], ◌∷◌, ◌++◌, map, arith,
  Bytes, codes, tolower, bytes_eq, bytes_eq_iff, bytes_eq_instance, Map, lookup, insert,
  lookup-insert, ◌==◌, if◌then◌else◌,
}
use autodngconverter.Util.Trim.{trim}

abbrev pub Env : Type 0
Env = Map Bytes Bytes

unfoldable pub getenv : Env → Bytes → Option Bytes
unfolding lookup
getenv env k = lookup k env

-- `setenv(k, v, 0)`: an existing value stays, and the empty name is refused (EINVAL).
unfoldable pub setenv : Bytes → Bytes → Env → Env
unfolding getenv insert
setenv [] v env = env
setenv (c ∷ k) v env = elim (getenv env (c ∷ k)) [ none ↦ insert (c ∷ k) v env | some w ↦ env ]

or_default : Option Bytes → Bytes → Bytes
or_default none def = def
or_default (some []) def = def
or_default (some (c ∷ v)) def = c ∷ v

pub env_or : Env → Bytes → Bytes → Bytes
unfolding or_default
env_or env key def = or_default (getenv env key) def

unfoldable pub is_truthy : Bytes → Bool
unfolding tolower bytes_eq
is_truthy v =
    let s = map tolower v in
    bytes_eq s (codes "1") || bytes_eq s (codes "true") || bytes_eq s (codes "yes")

pub env_bool : Env → Bytes → Bool → Bool
env_bool env key def = elim (getenv env key) [ none ↦ def | some v ↦ is_truthy v ]

-- `std::getline` until it fails: the lines, and a last one that no newline ends if it is not empty.
unfoldable pub lines : Bytes → Bytes → List Bytes
lines [] [] = []
lines (c ∷ cur) [] = (c ∷ cur) ∷ []
lines cur (c ∷ s) = elim (c == b'\n') [ true ↦ cur ∷ lines [] s | false ↦ lines (cur ++ c ∷ []) s ]

-- `find` of a byte: the text before it and the text behind it.
unfoldable pub cut_at : ℕ → Bytes → Option (Bytes × Bytes)
cut_at b [] = none
cut_at b (c ∷ s) =
    if c == b
    then some ([], s)
    else elim (cut_at b s) [ none ↦ none | some (k, v) ↦ some (c ∷ k, v) ]

abbrev is_quote : ℕ → Bool
is_quote c = c == b'"' || c == b'\''

unfoldable pub drop_front_quote : Bytes → Bytes
drop_front_quote [] = []
drop_front_quote (c ∷ v) = if is_quote c then v else c ∷ v

unfoldable pub drop_back_quote : Bytes → Bytes
drop_back_quote [] = []
drop_back_quote (c ∷ []) = if is_quote c then [] else c ∷ []
drop_back_quote (c ∷ d ∷ v) = c ∷ drop_back_quote (d ∷ v)

-- A trimmed line: `none` for a blank line, a comment, and a line with no `=`.
unfoldable pub assignment : Bytes → Option (Bytes × Bytes)
unfolding drop_front_quote drop_back_quote cut_at trim
assignment [] = none
assignment (c ∷ line) = if c == b'#' then none else elim (cut_at b'=' (c ∷ line)) [
  | none ↦ none
  | some (k, v) ↦ some (trim k, drop_back_quote (drop_front_quote (trim v)))
]

unfoldable pub apply : Option (Bytes × Bytes) → Env → Env
unfolding setenv getenv
apply none env = env
apply (some (k, v)) env = elim (getenv env k) [ none ↦ setenv k v env | some w ↦ env ]

unfoldable pub load_lines : List Bytes → Env → Env
unfolding apply
load_lines [] env = env
load_lines (l ∷ ls) env = load_lines ls (apply (assignment (trim l)) env)

-- `none` is a file that cannot be opened.
unfoldable pub load_dotenv : Option Bytes → Env → Env
unfolding load_lines
load_dotenv none env = env
load_dotenv (some content) env = load_lines (lines [] content) env

-- What a list of lines says of a name: the value of the first line that assigns it.
abbrev assigned : Bytes → Option (Bytes × Bytes) → Option Bytes
assigned k none = none
assigned k (some (j, v)) = if bytes_eq j k then some v else none

abbrev pub or_else : Option Bytes → Option Bytes → Option Bytes
or_else none other = other
or_else (some v) other = some v

abbrev pub first_assigned : Bytes → List Bytes → Option Bytes
first_assigned k [] = none
first_assigned k (l ∷ ls) = or_else (assigned k (assignment (trim l))) (first_assigned k ls)

getenv-apply :
    (a : Option (Bytes × Bytes)) (c : ℕ) (k : Bytes) (env : Env)
    → getenv (apply a env) (c ∷ k) ≡ or_else (getenv env (c ∷ k)) (assigned (c ∷ k) a)
unfolding getenv apply setenv
getenv-apply none c k env = ground arith
getenv-apply (some ([], v)) c k env = ground (arith, bytes_eq_iff [] (c ∷ k))
getenv-apply (some (d ∷ j, v)) c k env =
    ground (arith, lookup-insert (d ∷ j) (c ∷ k) v env, bytes_eq_iff (d ∷ j) (c ∷ k))

or_else_assoc : (a b c : Option Bytes) → or_else (or_else a b) c ≡ or_else a (or_else b c)
or_else_assoc none b c = refl
or_else_assoc (some v) b c = refl

getenv-load_lines :
    (ls : List Bytes) (c : ℕ) (k : Bytes) (env : Env)
    → getenv (load_lines ls env) (c ∷ k) ≡ or_else (getenv env (c ∷ k)) (first_assigned (c ∷ k) ls)
unfolding load_lines
getenv-load_lines [] c k env = ground arith
getenv-load_lines (l ∷ ls) c k env =
    rw
      (
        getenv-load_lines ls c k (apply (assignment (trim l)) env),
        getenv-apply (assignment (trim l)) c k env,
      )
      (or_else_assoc (getenv env (c ∷ k)) (assigned (c ∷ k) (assignment (trim l)))
        (first_assigned (c ∷ k) ls))

-- After the `.env` file is loaded, a non-empty name with a value keeps that value, and any other
-- non-empty name has the value of the first line that assigns it, or none.
pub getenv-load_dotenv :
    (content k : Bytes) (env : Env)
    → k ≢ []
    → getenv (load_dotenv (some content) env) k
      ≡ or_else (getenv env k) (first_assigned k (lines [] content))
unfolding load_dotenv
getenv-load_dotenv content [] env h = absurd (h refl)
getenv-load_dotenv content (c ∷ k) env h = getenv-load_lines (lines [] content) c k env
