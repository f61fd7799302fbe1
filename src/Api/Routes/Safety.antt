-- ===== src/Api/Routes/Safety.antt =====
-- What a client without the token gets from `handle` of src/api.cpp.
use autodngconverter.Base.{
  ◌≡◌, refl, ap, ◌⊎◌, inl, inr, Bool, true, false, Option, none, some, Bytes, codes, bytes_eq,
  bytes_eq_iff, is_empty, if◌then◌else◌, if-Holds, take, drop, suc, ℕ, starts_with,
}
use autodngconverter.Api.Query.{find}
use autodngconverter.Api.Request.{
  Request, request_of, request_behind, request_from, parse_request, is_allowed, has_token,
}
use autodngconverter.Api.Request.Token.{Bears, has_token-Bears}
use autodngconverter.Api.World.{Response, World, Services, json}
use autodngconverter.Api.Routes.{route, get_route, post_route, handle_request, handle}
use autodngconverter.Api.Routes.Cases.{Result}

-- The answers that say nothing of the imports.
pub data IsPublic : Response → Type 0 where
  alive : IsPublic (json 200 (codes "{\"status\":\"ok\"}"))
  empty : IsPublic (json 400 (codes "{\"error\":\"empty\"}"))
  malformed : IsPublic (json 400 (codes "{\"error\":\"bad-request\"}"))
  unauthorized : IsPublic (json 401 (codes "{\"error\":\"unauthorized\"}"))
  no_route : IsPublic (json 404 (codes "{\"error\":\"no-route\"}"))

-- A public answer, and nothing changed or asked.
abbrev pub IsHarmless : World → Result → Type 0
IsHarmless w (none, v) = ⊥
IsHarmless w (some s, v) = IsPublic s × (v ≡ w)

text-request_behind :
    (req : Bytes) (i : ℕ) (o : Option ℕ) (r : Request)
    → request_behind req i o ≡ some r
    → r.text ≡ req
text-request_behind req i none r h = absurd cc
text-request_behind req i (some j) r h =
    let e : r ≡ request_of req i (take j (drop (suc i) req)) = cc in ap (λ q. q.text) e

text-request_from :
    (req : Bytes) (o : Option ℕ) (r : Request) → request_from req o ≡ some r → r.text ≡ req
text-request_from req none r h = absurd cc
text-request_from req (some i) r h = text-request_behind req i (find b' ' (drop (suc i) req)) r h

-- A request keeps the text that it was read from.
pub text-parse_request : (req : Bytes) (r : Request) → parse_request req ≡ some r → r.text ≡ req
unfolding parse_request
text-parse_request req r h = text-request_from req (find b' ' req) r h

module _ (sv : Services) (w : World) where
  get_route-IsHarmless : (r : Request) → r.path ≡ codes "/health" → IsHarmless w (get_route sv r w)
  unfolding get_route bytes_eq
  get_route-IsHarmless r h = rw (h) (alive, refl)

  post_route-IsHarmless :
      (r : Request) → r.path ≡ codes "/health" → IsHarmless w (post_route sv r w)
  unfolding post_route bytes_eq starts_with
  post_route-IsHarmless r h = rw (h) (no_route, refl)

  -- On the path of the liveness probe no other route is taken.
  route-IsHarmless : (r : Request) → r.path ≡ codes "/health" → IsHarmless w (route sv r w)
  unfolding route
  route-IsHarmless r h =
      if-Holds (IsHarmless w) (bytes_eq r.method (codes "GET")) _ _ (λ _. get_route-IsHarmless r h)
        (λ _.
          if-Holds (IsHarmless w) (bytes_eq r.method (codes "POST")) _ _
            (λ _. post_route-IsHarmless r h) (λ _. (no_route, refl)))

  one_holds :
      (b c d : Bool)
      → (if b then true else if c then true else d) ≡ true
      → c ≡ false
      → (b ≡ true) ⊎ (d ≡ true)
  one_holds true c d h k = inl refl
  one_holds false true d h k = absurd cc
  one_holds false false d h k = inr h

  -- A request that is allowed without the token asks for the path of the liveness probe.
  is_allowed-path :
      (r : Request)
      → is_empty sv.api_token ≡ false
      → is_allowed sv.api_token r ≡ true
      → (Bears sv.api_token r.text → ⊥)
      → r.path ≡ codes "/health"
  unfolding is_allowed
  is_allowed-path r e k n =
      elim (one_holds (bytes_eq r.path (codes "/health")) (is_empty sv.api_token)
        (has_token sv.api_token r.text) k e) [
          | inl h ↦ (bytes_eq_iff r.path (codes "/health")).0 h
          | inr h ↦ absurd (n (has_token-Bears sv.api_token r.text h))
        ]

  handle_request-IsHarmless :
      (req : Bytes) (o : Option Request)
      → parse_request req ≡ o
      → is_empty sv.api_token ≡ false
      → (Bears sv.api_token req → ⊥)
      → IsHarmless w (handle_request sv o w)
  unfolding handle_request
  handle_request-IsHarmless req none h e n = (malformed, refl)
  handle_request-IsHarmless req (some r) h e n =
      if-Holds (IsHarmless w) (is_allowed sv.api_token r) _ _
        (λ k. route-IsHarmless r (is_allowed-path r e k (rw (text-parse_request req r h) n)))
        (λ _. (unauthorized, refl))

  -- Where a token is configured, a request is answered by one of five answers that say nothing of the
  -- imports, and reaches neither the store nor the rotation manager, if nowhere in its text, header or
  -- body, "Authorization:" is followed, at any distance, by "Bearer " and the token up to a line end or
  -- the end of the text.
  pub handle-IsHarmless :
      (req : Bytes)
      → is_empty sv.api_token ≡ false
      → (Bears sv.api_token req → ⊥)
      → IsHarmless w (handle sv req w)
  unfolding handle
  handle-IsHarmless req e n =
      if-Holds (IsHarmless w) (is_empty req) _ _ (λ _. (empty, refl))
        (λ _. handle_request-IsHarmless req (parse_request req) refl e n)
