-- ===== src/Http/Routes/Shapes.antt =====
-- The shapes of the answers of the routes (internal/httpserver): which body goes with which status, and which
-- answers set the refresh cookie.
use shelf_auth.Prelude.{
  none, some, String_eq, ℕ_eq, refl, Bool, ℕ, is_some, ◌==◌, ◌≡◌, ◌&&◌, true, not, ◌||◌, leb,
  if◌then◌else◌, arith, String, false, Option, is_empty, trim_space, trim_prefix,
}
use shelf_auth.Http.{
  Body, Response, plain, json, api_error, access, registered, profile, no_body, Handler, serve,
  reply, Request, fail, text,
}
use shelf_auth.Http.Register.{register_failed, register_reply, register_handler, RegisterRequest}
use shelf_auth.Http.Login.{login_failed, login_reply, login_handler, LoginRequest}
use shelf_auth.Http.Refresh.{
  refresh_failed, refresh_handler, refresh_reply, exchange, exchange_cookie, no_cookie, device_of,
}
use shelf_auth.Http.Session.{me_failed, logout_handler, me_reply, me_handler}
use shelf_auth.Http.Jwks.{KeySetResponse, jwks_handler, KeySet}
use shelf_auth.Http.Routes.{
  Answer, answer, key_set_answer, handle, Server, Endpoint, Method, Visit, is_head, health, ready,
  key_set_page, register_page, login_page, logout_page, refresh_page, me_page,
}
use shelf_auth.Errors.{Error, Result, ok, err}
use shelf_auth.Platform.{Platform, EntityId}
use shelf_auth.Exec.{Exec, World}
use shelf_auth.Service.Config.{AuthService}
use shelf_auth.Http.Cookies.{CookieCfg}
use shelf_auth.Tokens.{AccessClaims, TokenVerifier}
use shelf_auth.Http.Auth.{auth_middleware, admit, check_claims, me_route, http_error}
use shelf_auth.Service.Register.{RegisterResult, register}
use shelf_auth.Service.Login.{LoginResult, login}
use shelf_auth.Service.Refresh.{RefreshResult, refresh}
use shelf_auth.Service.Me.{MeResult, me}
use shelf_auth.Domain.{parse_id, is_zero}
use shelf_auth.Http.Address.{client_ip}

-- Errors have a status from 400 to 500 and set no cookie; a new access token comes with a cookie; a
-- plain text is the middleware's 401.
unfoldable pub fits : Body → ℕ → Bool → Bool
fits no_body status sets = status == 204 && sets
fits (plain t) status sets = status == 401 && not sets
fits (json t) status sets = status == 200 && not sets
fits (api_error code message) status sets = leb 400 status && leb status 500 && not sets
fits (access token exp) status sets = status == 200 && sets
fits (registered id email) status sets = status == 201 && not sets
fits (profile id email verified at) status sets = status == 200 && not sets

abbrev pub is_shaped : Response → Bool
is_shaped r = fits r.body r.status (is_some r.cookie)

-- 304 has no body, and 200 has one exactly if the method is not HEAD.
unfoldable pub key_set_shaped : Bool → KeySetResponse → Bool
key_set_shaped is_head r =
    (r.status == 304 && not (is_some r.body))
    || (r.status == 200 && (if is_head then not (is_some r.body) else is_some r.body))

unfoldable pub answer_shaped : Bool → Answer → Bool
answer_shaped is_head (answer r) = is_shaped r
answer_shaped is_head (key_set_answer r) = key_set_shaped is_head r

is_shaped-register_failed : (e : Error) → is_shaped (register_failed e) ≡ true
unfolding register_failed fits
is_shaped-register_failed e = ground arith

is_shaped-login_failed : (e : Error) → is_shaped (login_failed e) ≡ true
unfolding login_failed fits
is_shaped-login_failed e = ground arith

is_shaped-refresh_failed : (e : Error) → is_shaped (refresh_failed e) ≡ true
unfolding refresh_failed fits
is_shaped-refresh_failed e = ground arith

is_shaped-me_failed : (e : Error) → is_shaped (me_failed e) ≡ true
unfolding me_failed fits
is_shaped-me_failed e = ground arith

record IsShapedHandler (h : Handler) : Type 0 where
  at : (w : World) → is_shaped (h w).0 ≡ true

module _ (p : Platform) where
  -- Every handler refuses a request at once, or serves it.
  guarded-IsShapedHandler {ℓ} :
      {A : Type ℓ} (b : Bool) (r : Response) (m : Exec A) (k : Result A → Handler)
      → is_shaped r ≡ true
      → ((res : Result A) → IsShapedHandler (k res))
      → IsShapedHandler (if b then reply r else serve m k)
  guarded-IsShapedHandler true r m k h g = record { at = λ w. h }
  guarded-IsShapedHandler false r m k h g = record { at = λ w. (g (m w).0).at (m w).1 }

  module _ (s : AuthService) (cfg : CookieCfg) where
    register_reply-IsShapedHandler :
        (r : Result RegisterResult) → IsShapedHandler (register_reply r)
    unfolding register_reply fits
    register_reply-IsShapedHandler (ok r) = record { at = λ w. refl }
    register_reply-IsShapedHandler (err e) = record { at = λ w. is_shaped-register_failed e }

    login_reply-IsShapedHandler : (r : Result LoginResult) → IsShapedHandler (login_reply p s cfg r)
    unfolding login_reply fits
    login_reply-IsShapedHandler (ok r) = record { at = λ w. refl }
    login_reply-IsShapedHandler (err e) = record { at = λ w. is_shaped-login_failed e }

    refresh_reply-IsShapedHandler :
        (r : Result RefreshResult) → IsShapedHandler (refresh_reply p s cfg r)
    unfolding refresh_reply fits
    refresh_reply-IsShapedHandler (ok r) = record { at = λ w. refl }
    refresh_reply-IsShapedHandler (err e) = record { at = λ w. is_shaped-refresh_failed e }

    me_reply-IsShapedHandler : (r : Result MeResult) → IsShapedHandler (me_reply r)
    unfolding me_reply fits
    me_reply-IsShapedHandler (ok r) = record { at = λ w. refl }
    me_reply-IsShapedHandler (err e) = record { at = λ w. is_shaped-me_failed e }

    register_handler-IsShapedHandler :
        (body : Option RegisterRequest) → IsShapedHandler (register_handler p s body)
    unfolding register_handler fits
    register_handler-IsShapedHandler none = record { at = λ w. refl }
    register_handler-IsShapedHandler (some req) =
        guarded-IsShapedHandler (is_empty (trim_space req.email) || is_empty req.password)
          (fail 400 "MISSING_FIELDS" (text "email and password are required"))
          (register p s (trim_space req.email) req.password true) register_reply refl
          register_reply-IsShapedHandler

    login_handler-IsShapedHandler :
        (body : Option LoginRequest) (r : Request) → IsShapedHandler (login_handler p s cfg body r)
    unfolding login_handler fits
    login_handler-IsShapedHandler none r = record { at = λ w. refl }
    login_handler-IsShapedHandler (some req) r =
        guarded-IsShapedHandler
          (is_empty (trim_space req.email)
            || is_empty req.password
            || is_empty (trim_space req.device_id))
          (fail 400 "MISSING_FIELDS" (text "email, password and device_id are required"))
          (login p s (trim_space req.email) req.password (trim_space req.device_id) (client_ip p r)
            r.user_agent)
          (login_reply p s cfg) refl login_reply-IsShapedHandler

    exchange_cookie-IsShapedHandler :
        (r : Request) (cookie : Option String) → IsShapedHandler (exchange_cookie p s cfg r cookie)
    unfolding exchange fits
    exchange_cookie-IsShapedHandler r none = record { at = λ w. refl }
    exchange_cookie-IsShapedHandler r (some raw) =
        guarded-IsShapedHandler (is_empty (trim_space raw)) (no_cookie p s cfg)
          (refresh p s raw (device_of r) (client_ip p r) r.user_agent) (refresh_reply p s cfg) refl
          refresh_reply-IsShapedHandler

    me_handler-IsShapedHandler : (id : EntityId) → IsShapedHandler (me_handler p (some id))
    unfolding me_handler fits
    me_handler-IsShapedHandler id =
        guarded-IsShapedHandler (is_zero id) (fail 401 "UNAUTHORIZED" (text "missing auth context"))
          (me p id) me_reply refl me_reply-IsShapedHandler

    admit-IsShapedHandler :
        (r : Result EntityId) → IsShapedHandler (admit (λ id. me_handler p (some id)) r)
    unfolding fits
    admit-IsShapedHandler (err e) = record { at = λ w. refl }
    admit-IsShapedHandler (ok id) = me_handler-IsShapedHandler id

    check_claims-IsShapedHandler :
        (r : Result AccessClaims)
        → IsShapedHandler (check_claims p (λ id. me_handler p (some id)) r)
    unfolding fits
    check_claims-IsShapedHandler (err e) = record { at = λ w. refl }
    check_claims-IsShapedHandler (ok claims) = admit-IsShapedHandler (parse_id p claims.user_id)

    me_route-IsShapedHandler :
        (verifier : TokenVerifier) (r : Request) → IsShapedHandler (me_route p verifier r)
    unfolding auth_middleware fits
    me_route-IsShapedHandler verifier r =
        guarded-IsShapedHandler (is_empty (r.header "Authorization"))
          (http_error 401 "missing auth header")
          (verifier.verify_access (trim_prefix "Bearer " (r.header "Authorization")))
          (check_claims p (λ id. me_handler p (some id))) refl check_claims-IsShapedHandler

key_set_shaped-jwks_handler :
    (k : KeySet) (is_head : Bool) (inm : String)
    → key_set_shaped is_head (jwks_handler k is_head inm) ≡ true
unfolding jwks_handler key_set_shaped
key_set_shaped-jwks_handler k is_head inm = ground arith

-- Every answer to a request at a route of the router has one of these shapes, whatever the request and the
-- world: an error in the JSON format with a status from 400 to 500, or the middleware's plain 401,
-- neither with a cookie; an access token with 200 and a cookie; no content with 204 and a cookie; a
-- registration with 201, or an account or a constant text with 200, without a cookie; the key set with
-- 200, without a body for HEAD only, or 304 without a body.
pub answer_shaped-handle :
    (p : Platform) (srv : Server) (e : Endpoint) (m : Method) (v : Visit) (w : World)
    → answer_shaped (is_head m) (handle p srv e m v w).0 ≡ true
unfolding handle answer_shaped fits logout_handler refresh_handler
answer_shaped-handle p srv health m v w = refl
answer_shaped-handle p srv ready m v w = refl
answer_shaped-handle p srv key_set_page m v w =
    key_set_shaped-jwks_handler srv.key_set (is_head m) _
answer_shaped-handle p srv register_page m v w =
    (register_handler-IsShapedHandler p srv.service srv.cookies v.registration).at w
answer_shaped-handle p srv login_page m v w =
    (login_handler-IsShapedHandler p srv.service srv.cookies v.credentials v.request).at w
answer_shaped-handle p srv logout_page m v w = refl
answer_shaped-handle p srv refresh_page m v w =
    (exchange_cookie-IsShapedHandler p srv.service srv.cookies v.request
        v.request.refresh_cookie).at
      w
answer_shaped-handle p srv me_page m v w =
    (me_route-IsShapedHandler p srv.service srv.cookies srv.verifier v.request).at w
