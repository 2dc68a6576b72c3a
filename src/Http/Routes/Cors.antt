-- ===== src/Http/Routes/Cors.antt =====
-- The middlewares of the router (internal/httpserver/router.go), as what the libraries are given: the order, the
-- timeout, and the options of CORS.
use shelf_auth.Prelude.{◌∷◌, [], String_eq, ℕ_eq, refl, inl, inr, List, String, Elem, Bool, true, ℕ}
use shelf_auth.Platform.{Duration}
use shelf_auth.Http.Routes.{Method, Route, get_method, head_method, post_method}

pub record CorsOptions : Type 0 where
  pub allowed_origins : List String
  pub allowed_methods : List String
  pub allowed_headers : List String
  pub allow_credentials : Bool
  pub max_age : ℕ

abbrev pub cors_options : List String → CorsOptions
cors_options origins = record {
  allowed_origins = origins;
  allowed_methods = "GET" ∷ "POST" ∷ "HEAD" ∷ "OPTIONS" ∷ [];
  allowed_headers = "Content-Type" ∷ "Authorization" ∷ "X-Device-ID" ∷ [];
  allow_credentials = true;
  max_age = 300;
}

pub data Middleware : Type 0 where
  request_id real_ip recoverer : Middleware
  timeout : Duration → Middleware
  with_security_headers : Middleware
  cors : CorsOptions → Middleware

-- CORS only if origins are configured.
abbrev pub cors_middleware : List String → List Middleware
cors_middleware [] = []
cors_middleware (origin ∷ origins) = cors (cors_options (origin ∷ origins)) ∷ []

abbrev pub middlewares : List String → List Middleware
middlewares origins =
    request_id
    ∷ real_ip
    ∷ recoverer
    ∷ timeout 10000000000
    ∷ with_security_headers
    ∷ cors_middleware origins

abbrev method_name : Method → String
method_name get_method = "GET"
method_name head_method = "HEAD"
method_name post_method = "POST"

-- Where CORS is configured, it allows the method of every route.
allows_method :
    (origins : List String) (r : Route)
    → Elem (method_name r.method) (cors_options origins).allowed_methods
allows_method origins r = named r.method
  where
    named : (m : Method) → Elem (method_name m) (cors_options origins).allowed_methods
    named get_method = inl refl
    named head_method = inr (inr (inl refl))
    named post_method = inr (inl refl)
