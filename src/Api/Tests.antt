-- ===== src/Api/Tests.antt =====
-- Tests of the texts of src/api.cpp, and the theorems at concrete texts.
use autodngconverter.Base.{◌≡◌, refl, some, List, [], ◌∷◌, ◌++◌, Bytes, codes, starts_with}
use autodngconverter.Util.Env.{cut_at}
use autodngconverter.Api.Json.{quote, json_escape, json_get, behind, skip_blanks, value_at, bare}
use autodngconverter.Api.Json.RoundTrip.{json_text, json_text-json_escape}
use autodngconverter.Api.Query.{parse_query}
use autodngconverter.Api.Query.RoundTrip.{print, insert_all, parse_query-print}

number_field : json_get (codes "{\"import_id\": 42, \"x\":\"y\"}") (codes "import_id") ≡ codes "42"
unfolding json_get behind skip_blanks value_at bare cut_at starts_with
number_field = refl

-- A value with an escaped quote is cut at the quote.
escaped_field : json_get (codes "{\"x\":\"a\\\"b\"}") (codes "x") ≡ codes "a\\"
unfolding json_get behind skip_blanks value_at bare cut_at starts_with
escaped_field = refl

json_text-json_escape_example :
    json_text [] (json_escape (codes "a\"\n") ++ (quote ∷ codes ","))
    ≡ some (codes "a\"\n", codes ",")
json_text-json_escape_example =
    json_text-json_escape (codes "a\"\n") [] (codes ",") (refl, (refl, (refl, tt)))

abbrev pairs : List (Bytes × Bytes)
pairs = (codes "page", codes "2") ∷ (codes "camera", codes "Z=9") ∷ (codes "page", codes "3") ∷ []

parse_query-print_example : parse_query (print pairs) ≡ insert_all pairs []
parse_query-print_example = parse_query-print pairs (
  ((refl, (refl, (refl, (refl, tt)))), (refl, (refl, (refl, (refl, tt)))), (refl, tt)),
  (
    (
      (refl, (refl, (refl, (refl, (refl, (refl, tt)))))),
      (refl, (refl, (refl, (refl, (refl, (refl, tt)))))),
      (refl, (refl, (refl, tt))),
    ),
    (((refl, (refl, (refl, (refl, tt)))), (refl, (refl, (refl, (refl, tt)))), (refl, tt)), tt),
  ),
)
