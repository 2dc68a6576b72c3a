-- ===== src/Http/Routes.antt =====
-- NewRouter, SecurityHeaders and NewEmptyJWKS (internal/httpserver), and the probes of
-- internal/httpserver/handlers: which handler serves a method and a path. Matching a request with a route,
-- and what the middlewares of chi do, are not part of it.
pub mod Safe
pub mod History
pub mod Once
pub mod Shapes
pub mod Cors
use shelf_auth.Prelude.{
  none, some, ◌∷◌, [], String_eq, ℕ_eq, String, List, Bool, Option, false, true, ℕ,
}
use shelf_auth.Service.Config.{AuthService}
use shelf_auth.Http.{Request, Response, json}
use shelf_auth.Http.Jwks.{KeySet, KeySetResponse, jwks_handler}
use shelf_auth.Platform.{Platform}
use shelf_auth.Tokens.{TokenVerifier}
use shelf_auth.Exec.{World}
use shelf_auth.Http.Cookies.{CookieCfg}
use shelf_auth.Http.Register.{RegisterRequest, register_handler}
use shelf_auth.Http.Login.{LoginRequest, login_handler}
use shelf_auth.Http.Session.{logout_handler}
use shelf_auth.Http.Refresh.{refresh_handler}
use shelf_auth.Http.Auth.{me_route}

pub data Method : Type 0 where
  get_method head_method post_method : Method

pub data Endpoint : Type 0 where
  health ready key_set_page : Endpoint
  register_page login_page logout_page refresh_page : Endpoint
  me_page : Endpoint

pub record Route : Type 0 where
  pub method : Method
  pub path : String
  pub endpoint : Endpoint

abbrev pub route : Method → String → Endpoint → Route
route m path e = record { method = m; path = path; endpoint = e }

abbrev pub routes : List Route
routes =
    route get_method "/healthz" health
    ∷ route head_method "/healthz" health
    ∷ route get_method "/readyz" ready
    ∷ route head_method "/readyz" ready
    ∷ route get_method "/.well-known/jwks.json" key_set_page
    ∷ route head_method "/.well-known/jwks.json" key_set_page
    ∷ route post_method "/register" register_page
    ∷ route post_method "/login" login_page
    ∷ route post_method "/logout" logout_page
    ∷ route post_method "/refresh" refresh_page
    ∷ route get_method "/me" me_page
    ∷ []

-- What NewRouter is given, and the names of the CORS origins.
pub record Server : Type 0 where
  pub service : AuthService
  pub verifier : TokenVerifier
  pub key_set : KeySet
  pub cookies : CookieCfg
  pub cors_origins : List String

-- A request, with its body as each handler decodes it.
pub record Visit : Type 0 where
  pub request : Request
  pub registration : Option RegisterRequest
  pub credentials : Option LoginRequest

pub data Answer : Type 0 where
  answer : Response → Answer
  key_set_answer : KeySetResponse → Answer

abbrev pub status_of : Answer → ℕ
status_of (answer r) = r.status
status_of (key_set_answer r) = r.status

abbrev pub wrap_answer : Response × World → Answer × World
wrap_answer (r, w) = (answer r, w)

abbrev pub probe : String → Response
probe state = record { status = 200; body = json state; cookie = none }

abbrev pub is_head : Method → Bool
is_head get_method = false
is_head head_method = true
is_head post_method = false

-- SecurityHeaders
abbrev pub security_headers : List (String × String)
security_headers =
    ("X-Content-Type-Options", "nosniff")
    ∷ ("X-Frame-Options", "DENY")
    ∷ ("Referrer-Policy", "no-referrer")
    ∷ ("Content-Security-Policy", "default-src 'none'; frame-ancestors 'none'; base-uri 'none'")
    ∷ []

-- NewEmptyJWKS
abbrev pub empty_jwks : KeySet
empty_jwks = record { body = "{\"keys\":[]}"; etag = "W/\"jwks-empty-0\""; max_age = 300000000000 }

module _ (p : Platform) (srv : Server) where
  -- The handler of an endpoint.
  unfoldable pub handle : Endpoint → Method → Visit → World → Answer × World
  handle health m v w = (answer (probe "{\"status\":\"ok\",\"service\":\"shelf-auth\"}"), w)
  handle ready m v w = (answer (probe "{\"status\":\"ready\",\"service\":\"shelf-auth\"}"), w)
  handle key_set_page m v w =
      (key_set_answer (jwks_handler srv.key_set (is_head m) (v.request.header "If-None-Match")), w)
  handle register_page m v w = wrap_answer (register_handler p srv.service v.registration w)
  handle login_page m v w =
      wrap_answer (login_handler p srv.service srv.cookies v.credentials v.request w)
  handle logout_page m v w = wrap_answer (logout_handler p srv.cookies v.request w)
  handle refresh_page m v w = wrap_answer (refresh_handler p srv.service srv.cookies v.request w)
  handle me_page m v w = wrap_answer (me_route p srv.verifier v.request w)

  -- A route's answer, with the headers that are set before its handler runs.
  abbrev pub serve_route : Route → Visit → World → List (String × String) × (Answer × World)
  serve_route r v w = (security_headers, handle r.endpoint r.method v w)
