-- ===== src/Api/Routes/Tests.antt =====
-- The theorems on src/api.cpp at concrete requests, with a server that holds one import.
use autodngconverter.Base.{
  ℕ, arith, ◌≡◌, ◌∙◌, refl, ap, sym, true, Option, none, some, List, [], ◌∷◌, Bytes, codes,
  starts_with, bytes_eq, value_of, pos,
}
use autodngconverter.Config.{default_config}
use autodngconverter.Metrics.{initial}
use autodngconverter.Rotation.{manager}
use autodngconverter.Db.Server.{Server}
use autodngconverter.Db.Operations
use autodngconverter.Api.Json.{json_get}
use autodngconverter.Api.Query
use autodngconverter.Api.Request.{
  find_text, up_to, split_target, parse_request, body, is_allowed, has_token, bearer_token, Request,
  read_request,
}
use autodngconverter.Api.Request.Reading.{FitsBuffer, Outcome, read_request-Outcome}
use autodngconverter.Api.Request.Token.{Bears, find_text-none}
use autodngconverter.Api.Respond.{response_text, send_response}
use autodngconverter.Api.Respond.Whole.{IsPrefix, Takes, send_response_lem}
use autodngconverter.Api.World.{World, Services, contains_text, json}
use autodngconverter.Api.Routes.{
  handle, handle_request, route, post_route, preview_updated, preview_found, sync_hash,
}
use autodngconverter.Api.Routes.Safety.{IsHarmless, handle-IsHarmless}
use autodngconverter.Api.Routes.ReadOnly.{OnlyReads, handle-OnlyReads}
use autodngconverter.Api.Routes.Effects.{HasEffect, handle-HasEffect}
use autodngconverter.Api.Routes.Answers.{Answers}

abbrev row : List Bytes
row = codes "5" ∷ codes "1" ∷ codes "/w/a.nef" ∷ codes "aa" ∷ codes "/o/a.dng" ∷ codes "bb" ∷ []

abbrev server : Server
server = record {
  connected = true;
  prepare = λ t q. true;
  bind_param = λ t q cells. true;
  bind_result = λ t q. true;
  execute = λ t q cells. true;
  store_result = λ t. true;
  insert_id = λ t. 7;
  fetch = λ t. some row ∷ [];
  query = λ t q. true;
  row = λ t. none;
  lock_row = λ t. none;
  now = λ t. 100;
  ping = λ t. true;
  random_token = λ t. [];
  secure_random_token = λ t. [];
}

abbrev services : Services
services = record {
  server = server;
  strtoll = λ s. value_of 0 s;
  atoi = λ s. pos (value_of 0 s);
  sha256_file = λ t path. codes "cc";
  now = λ t. 1000;
  metrics = initial;
  show_sum = λ ds. codes "0";
  api_token = codes "key";
}

abbrev world : World
world = record { db = []; rotation = some (manager default_config) }

abbrev stats_request : Bytes
stats_request = codes "GET /api/v1/stats HTTP/1.1\r\n\r\n"

-- A request without the header does not hold the token.
no_header : find_text (codes "Authorization:") stats_request ≡ none
unfolding find_text starts_with
no_header = refl

no_token : Bears (codes "key") stats_request → ⊥
no_token (a, m, b, c, split, starts, rest, end) =
    let e =
      find_text-none b'A' (codes "uthorization:") a m
        (ap (find_text (codes "Authorization:")) (sym split) ∙ no_header) in
    absurd cc

handle-IsHarmless_example : IsHarmless world (handle services stats_request world)
handle-IsHarmless_example = handle-IsHarmless services world stats_request refl no_token

abbrev stats_read : Request
stats_read = record {
  method = codes "GET";
  path = codes "/api/v1/stats";
  query = [];
  text = stats_request;
}

handle-OnlyReads_example : OnlyReads world (handle services stats_request world)
unfolding parse_request Query.find split_target Query.parse_query Query.parse
handle-OnlyReads_example = handle-OnlyReads services stats_request stats_read world refl refl

abbrev preview_request : Bytes
preview_request =
    codes
      "POST /api/v1/imports/by-path/preview-updated HTTP/1.1\r\nAuthorization: Bearer key\r\n\r\n{\"output_path\":\"/o/a.dng\"}"

handle-HasEffect_example : HasEffect world (handle services preview_request world)
handle-HasEffect_example =
    handle-HasEffect services preview_request world
      (record { prepared = λ t q. refl; bound = λ t q cells. refl })

preview_answer :
    (handle services preview_request world).0 ≡ some (json 200 (codes "{\"status\":\"synced\"}"))
unfolding handle handle_request parse_request Query.find split_target Query.parse_query Query.parse
    is_allowed has_token bearer_token find_text starts_with up_to bytes_eq route post_route
    contains_text preview_updated json_get body preview_found Operations.get_import_by_output_path
    sync_hash
preview_answer = refl

abbrev page_request : Bytes
page_request = codes "GET /api/v1/imports?page=x HTTP/1.1\r\nAuthorization: Bearer key\r\n\r\n"

-- Two pieces, the first one up to the middle of a line.
abbrev pieces : List Bytes → Option Bytes
pieces [] = some (codes "GET /health HT")
pieces (p ∷ []) = some (codes "TP/1.1\r\n\r\n")
pieces (p ∷ q ∷ ps) = none

pieces-FitsBuffer : FitsBuffer pieces
pieces-FitsBuffer [] piece h =
    let e : piece ≡ codes "GET /health HT" = cc in rw (e) (omega arith, omega arith)
pieces-FitsBuffer (p ∷ []) piece h =
    let e : piece ≡ codes "TP/1.1\r\n\r\n" = cc in rw (e) (omega arith, omega arith)
pieces-FitsBuffer (p ∷ q ∷ ps) piece h = absurd cc

read_request-Outcome_example : Outcome pieces (read_request pieces)
read_request-Outcome_example = read_request-Outcome pieces pieces-FitsBuffer

-- A peer that takes three bytes at a time, or what is left.
abbrev by_three : List ℕ → Bytes → ℕ
by_three counts (a ∷ b ∷ c ∷ s) = 3
by_three counts (a ∷ b ∷ []) = 2
by_three counts (a ∷ []) = 1
by_three counts [] = 0

send_response_lem_example :
    IsPrefix
      (send_response by_three (json 200 (codes "{}")))
      (response_text (json 200 (codes "{}")))
    × (Takes by_three
        → send_response by_three (json 200 (codes "{}")) ≡ response_text (json 200 (codes "{}")))
send_response_lem_example = send_response_lem by_three (json 200 (codes "{}"))
