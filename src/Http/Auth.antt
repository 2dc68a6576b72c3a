-- ===== src/Http/Auth.antt =====
-- AuthMiddleware (internal/httpserver/middleware/auth.go), and the route of /me behind it.
pub mod Laws
pub mod Account
pub mod Subject
use shelf_auth.Prelude.{
  none, some, ◌∷◌, [], String_eq, ℕ_eq, ℕ, String, if◌then◌else◌, is_empty, trim_prefix,
}
use shelf_auth.Platform.{EntityId, Platform}
use shelf_auth.Http.{Handler, Response, Request, plain, reply, serve}
use shelf_auth.Tokens.{TokenVerifier, AccessClaims}
use shelf_auth.Errors.{Result, err, ok}
use shelf_auth.Http.Session.{me_handler}
use shelf_auth.Domain.{parse_id}

-- http.Error
abbrev pub http_error : ℕ → String → Response
http_error status text = record { status = status; body = plain text; cookie = none }

-- The handler behind gets the id that is put into the request's context.
abbrev pub admit : (EntityId → Handler) → Result EntityId → Handler
admit next_handler (err e) = reply (http_error 401 "invalid token")
admit next_handler (ok id) = next_handler id

abbrev pub check_claims : Platform → (EntityId → Handler) → Result AccessClaims → Handler
check_claims p next_handler (err e) = reply (http_error 401 "invalid token")
check_claims p next_handler (ok claims) = admit next_handler (parse_id p claims.user_id)

unfoldable pub auth_middleware : Platform → TokenVerifier → (EntityId → Handler) → Request → Handler
auth_middleware p verifier next_handler r =
    let auth_header = r.header "Authorization" in
    if is_empty auth_header
    then reply (http_error 401 "missing auth header")
    else serve (verifier.verify_access (trim_prefix "Bearer " auth_header))
        (check_claims p next_handler)

-- GET /me
abbrev pub me_route : Platform → TokenVerifier → Request → Handler
me_route p verifier = auth_middleware p verifier (λ id. me_handler p (some id))
