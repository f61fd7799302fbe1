-- ===== src/Api/Routes/Answers.antt =====
-- Which requests `handle` of src/api.cpp answers.
use autodngconverter.Base.{
  ◌≡◌, ◌≢◌, ◌⊎◌, none, some, [], Bytes, codes, lookup, bytes_eq_instance, stoi,
}
use autodngconverter.Api.Json.{json_get}
use autodngconverter.Api.Request.{Request, body, parse_request}
use autodngconverter.Api.World.{World}
use autodngconverter.Api.Routes.Cases.{Result}

-- A text that `stoi` does not read stands in the query as the page or the limit, or, not empty, in the body as the orientation.
abbrev pub HasBadNumber : Request → Type 0
HasBadNumber r =
    (v : Bytes) × (stoi v ≡ none)
    × (((key : Bytes) × ((key ≡ codes "page") ⊎ (key ≡ codes "limit"))
          × (lookup key r.query ≡ some v))
        ⊎ ((v ≢ []) × (v ≡ json_get (body r.text) (codes "orientation"))))

-- There is an answer, or the request has such a number.
abbrev IsAnswered : Request → Result → Type 0
IsAnswered r (some s, v) = Unit
IsAnswered r (none, v) = HasBadNumber r

-- The answer, or a request that was read and has a bad number.
abbrev pub Answers : Bytes → Result → Type 0
Answers req (some s, v) = Unit
Answers req (none, v) = (r : Request) × (parse_request req ≡ some r) × HasBadNumber r
