-- ===== src/Http.antt =====
-- internal/httpserver: requests as the handlers read them, and responses: their status, their
-- body, and the refresh cookie that they set. Bodies are decoded and encoded by encoding/json, so
-- a handler gets the decoded value, or none if the decoding failed. Other header fields are not
-- part of a response.
pub mod Jwks
pub mod Cookies
pub mod Address
pub mod Login
pub mod Refresh
pub mod Session
pub mod Register
pub mod Auth
pub mod Routes
use shelf_auth.Prelude.{ℕ, String, Bool, List, [], ◌∷◌, Option, none, if◌then◌else◌}
use shelf_auth.Exec.{Exec, World}
use shelf_auth.Errors.{Result, Error}
use shelf_auth.Platform.{Time, EntityId}
use shelf_auth.Http.Cookies.{Cookie}

pub record Request : Type 0 where
  -- the first value of a header field, or the empty text
  pub header : String → String
  pub remote_addr : String
  pub user_agent : String
  -- the value of the cookie refresh_token
  pub refresh_cookie : Option String

-- A message to the client: a text of the program's, or a prefix and the text of an error.
pub data Message : Type 0 where
  text : String → Message
  text_of : String → Error → Message

pub data Body : Type 0 where
  no_body : Body
  -- http.Error
  plain : String → Body
  -- a constant text
  json : String → Body
  api_error : String → Message → Body
  access : String → Time → Body
  registered : EntityId → String → Body
  profile : EntityId → String → Bool → Time → Body

pub record Response : Type 0 where
  pub status : ℕ
  pub body : Body
  pub cookie : Option Cookie

-- Every path of a handler writes one response.
abbrev pub Handler : Type 0
Handler = World → Response × World

abbrev pub reply : Response → Handler
reply r w = (r, w)

-- writeAPIError
abbrev pub fail : ℕ → String → Message → Response
fail status code message = record { status = status; body = api_error code message; cookie = none }

abbrev pub serve {ℓ} : {A : Type ℓ} → Exec A → (Result A → Handler) → Handler
serve m k w = let (r, w') = m w in k r w'

-- A Go switch without a tag: the first case that holds.
abbrev pub switch {ℓ} : {A : Type ℓ} → List (Bool × A) → A → A
switch [] otherwise = otherwise
switch ((holds, a) ∷ cases) otherwise = if holds then a else switch cases otherwise
