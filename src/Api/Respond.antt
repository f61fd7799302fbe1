-- ===== src/Api/Respond.antt =====
-- `send_response` of src/api.cpp, for POSIX: the text of an answer, and the loop that sends it. `send`
-- answers by the bytes that are left, after the counts that it has answered before, newest first; 0
-- stands for an error too.
pub mod Whole
use autodngconverter.Base.{
  ℕ, zero, suc, List, [], ◌∷◌, ◌++◌, Bytes, codes, to_string, length, take, drop, ◌==◌,
  if◌then◌else◌,
}
use autodngconverter.Api.World.{Response}

unfoldable pub reason : ℕ → Bytes
reason code =
    if code == 200
    then codes "OK"
    else if code == 404
    then codes "Not Found"
    else if code == 401
    then codes "Unauthorized"
    else if code == 503
    then codes "Service Unavailable"
    else codes "Error"

unfoldable pub headers : Response → Bytes
headers r =
    codes "HTTP/1.1 "
    ++ to_string r.code
    ++ codes " "
    ++ reason r.code
    ++ codes "\r\nContent-Type: "
    ++ r.content_type
    ++ codes "\r\nContent-Length: "
    ++ to_string (length r.body)
    ++ codes "\r\nConnection: close\r\n\r\n"

unfoldable pub response_text : Response → Bytes
response_text r = headers r ++ r.body

-- What the peer gets of the bytes that are left; the fuel bounds their number.
unfoldable pub send_loop : ℕ → (List ℕ → Bytes → ℕ) → List ℕ → Bytes → Bytes
send_loop zero send counts rest = []
send_loop (suc fuel) send counts [] = []
send_loop (suc fuel) send counts (b ∷ rest) = elim (send counts (b ∷ rest)) [
  | zero ↦ []
  | suc n ↦
      take (suc n) (b ∷ rest) ++ send_loop fuel send (suc n ∷ counts) (drop (suc n) (b ∷ rest))
]

unfoldable pub send_response : (List ℕ → Bytes → ℕ) → Response → Bytes
send_response send r = send_loop (length (response_text r)) send [] (response_text r)
