-- ===== src/Api/Routes/Cases.antt =====
-- What holds of each route of src/api.cpp holds of its handler.
use autodngconverter.Base.{
  ◌≡◌, refl, Bool, true, ◌&&◌, Option, none, some, Bytes, codes, bytes_eq, starts_with, is_empty,
  if◌then◌else◌, if-Holds,
}
use autodngconverter.Api.Request.{Request, parse_request, is_allowed}
use autodngconverter.Api.World.{Response, World, Services, imports, imports_hash, contains_text}
use autodngconverter.Api.Routes.{
  ready, stats, list, by_hash, by_source, by_sequence, reconvert, preview_updated, rotation_updated,
  get_route, post_route, route, handle_request, handle,
}

abbrev pub Result : Type 0
Result = Option Response × World

-- A predicate that every answer without a call fulfils, and the routes that look.
pub record GetCases {ℓ} (sv : Services) (P : Result → Type ℓ) (r : Request) (w : World)
    : Type ℓ where
  pub answered : (s : Response) → P (some s, w)
  pub on_ready : P (ready sv w)
  pub on_stats : P (stats sv w)
  pub on_list : P (list sv r w)
  pub on_hash : P (by_hash sv r w)
  pub on_source : P (by_source sv r w)
  pub on_sequence : P (by_sequence sv r w)

-- The routes that change something.
pub record PostCases {ℓ} (sv : Services) (P : Result → Type ℓ) (r : Request) (w : World)
    : Type ℓ where
  pub on_reconvert : P (reconvert sv r w)
  pub on_preview : P (preview_updated sv r w)
  pub on_rotation : P (rotation_updated sv r w)

module _ {ℓ} (sv : Services) (P : Result → Type ℓ) (r : Request) (w : World) where
  if_both : (b : Bool) (x y : Result) → P x → P y → P (if b then x else y)
  if_both b x y h k = if-Holds P b x y (λ _. h) (λ _. k)

  pub get_route-Holds : GetCases sv P r w → P (get_route sv r w)
  unfolding get_route
  get_route-Holds c = if_both (bytes_eq r.path (codes "/health")) _ _ (c.answered _) (
      if_both (bytes_eq r.path (codes "/ready")) _ _ c.on_ready (
        if_both (bytes_eq r.path (codes "/metrics")) _ _ (c.answered _) (
          if_both (bytes_eq r.path (codes "/api/v1/stats")) _ _ c.on_stats (
            if_both (bytes_eq r.path (codes "/api/v1/alerts")) _ _ (c.answered _) (
              if_both (bytes_eq r.path (codes "/api/v1/imports")) _ _ c.on_list (
                if_both (starts_with imports_hash r.path) _ _ c.on_hash (
                  if_both (starts_with (codes "/api/v1/imports/by-source") r.path) _ _ c.on_source
                    (if_both (starts_with imports r.path) _ _ c.on_sequence (c.answered _)))))))))

  pub post_route-Holds :
      ((s : Response) → P (some s, w)) → PostCases sv P r w → P (post_route sv r w)
  unfolding post_route
  post_route-Holds a c =
      if_both (starts_with imports r.path && contains_text (codes "/reconvert") r.path) _ _
        c.on_reconvert
        (if_both (bytes_eq r.path (codes "/api/v1/imports/by-path/preview-updated")) _ _
          c.on_preview
          (if_both (bytes_eq r.path (codes "/api/v1/imports/by-source/rotation-updated")) _ _
            c.on_rotation (a _)))

  pub route-Holds : GetCases sv P r w → PostCases sv P r w → P (route sv r w)
  unfolding route
  route-Holds g p = if_both (bytes_eq r.method (codes "GET")) _ _ (get_route-Holds g) (
      if_both (bytes_eq r.method (codes "POST")) _ _ (post_route-Holds g.answered p) (g.answered _))

module _ {ℓ} (sv : Services) (P : Result → Type ℓ) (req : Bytes) (w : World) where
  -- What holds of the answers without a call and of the routes of an allowed request holds of the handler.
  pub handle-Holds :
      ((s : Response) → P (some s, w))
      → ((r : Request)
          → parse_request req ≡ some r
          → is_allowed sv.api_token r ≡ true
          → P (route sv r w))
      → P (handle sv req w)
  unfolding handle handle_request
  handle-Holds a h = if-Holds P (is_empty req) _ _ (λ _. a _) (λ _. go (parse_request req) refl)
    where
      go : (o : Option Request) → parse_request req ≡ o → P (handle_request sv o w)
      go none e = a _
      go (some r) e = if-Holds P (is_allowed sv.api_token r) _ _ (λ k. h r e k) (λ _. a _)
