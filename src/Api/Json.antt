-- ===== src/Api/Json.antt =====
-- `json_escape`, `record_to_json` and `json_get` of src/api.cpp.
pub mod RoundTrip
use autodngconverter.Base.{
  ℕ, Bool, true, false, not, ◌&&◌, ◌||◌, Option, none, some, List, [], ◌∷◌, ◌++◌, Bytes, codes,
  is_empty, starts_with, drop, length, ℤ, ◌==◌, if◌then◌else◌,
}
use autodngconverter.Pipeline.Types.{ImportRecord, status_text}
use autodngconverter.Util.Env.{cut_at}

abbrev pub quote : ℕ
quote = b'"'

abbrev pub backslash : ℕ
backslash = b'\\'

-- What one byte becomes, in front of the rest.
unfoldable pub escape_byte : ℕ → Bytes → Bytes
escape_byte c rest =
    if c == quote || c == backslash
    then backslash ∷ c ∷ rest
    else if c == b'\n'
    then backslash ∷ b'n' ∷ rest
    else if c == b'\r'
    then backslash ∷ b'r' ∷ rest
    else if c == b'\t'
    then backslash ∷ b't' ∷ rest
    else c ∷ rest

unfoldable pub json_escape : Bytes → Bytes
unfolding escape_byte
json_escape [] = []
json_escape (c ∷ s) = escape_byte c (json_escape s)

abbrev field : Bytes → Bytes → Bytes → Bytes
field name value rest = quote ∷ (name ++ (quote ∷ b':' ∷ quote ∷ (value ++ (quote ∷ b',' ∷ rest))))

-- `show` is the printing of an `int`.
unfoldable pub record_to_json : (ℤ → Bytes) → ImportRecord → Bytes
unfolding json_escape
record_to_json show r =
    b'{'
    ∷ field (codes "sequence") (json_escape r.sequence_name) (
        field (codes "source_path") (json_escape r.source_path) (
          field (codes "source_hash") (json_escape r.source_hash) (
            field (codes "output_path") (json_escape r.output_path) (
              field (codes "output_hash") (json_escape r.output_hash) (
                field (codes "camera_model") (json_escape r.camera_model) (
                  field (codes "capture_date") (json_escape r.capture_date) (
                    field (codes "capture_time") (json_escape r.capture_time) (
                      field (codes "folder_schema") (json_escape r.folder_schema) (
                        field (codes "status") (status_text r.status) (
                          field (codes "created_at") (json_escape r.created_at) (
                            field (codes "completed_at") (json_escape r.completed_at) (
                              codes "\"orientation\":"
                              ++ (show r.orientation ++ (b'}' ∷ []))))))))))))))

-- The text behind the first occurrence of the pattern.
unfoldable pub behind : Bytes → Bytes → Option Bytes
unfolding starts_with
behind pat [] = if is_empty pat then some [] else none
behind pat (c ∷ s) =
    let rest = behind pat s in
    if starts_with pat (c ∷ s) then some (drop (length pat) (c ∷ s)) else rest

unfoldable pub skip_blanks : Bytes → Bytes
skip_blanks [] = []
skip_blanks (c ∷ s) = let rest = skip_blanks s in if c == b' ' || c == b'\t' then rest else c ∷ s

-- The bytes of a value without quotes.
unfoldable pub bare : Bytes → Bytes
bare [] = []
bare (c ∷ s) = let rest = bare s in if c == b',' || c == b'}' || c == b' ' then [] else c ∷ rest

abbrev quoted : Option (Bytes × Bytes) → Bytes
quoted none = []
quoted (some (value, rest)) = value

unfoldable pub value_at : Bytes → Bytes
unfolding bare cut_at
value_at [] = []
value_at (c ∷ s) = if c == quote then quoted (cut_at quote s) else bare (c ∷ s)

unfoldable pub json_get : Bytes → Bytes → Bytes
unfolding behind skip_blanks value_at
json_get body key = elim (behind (quote ∷ (key ++ (quote ∷ b':' ∷ []))) body) [
  | none ↦ []
  | some s ↦ value_at (skip_blanks s)
]
