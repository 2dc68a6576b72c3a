-- ===== src/Http/Login.antt =====
-- LoginHandler (internal/httpserver/handlers/logging.go).
pub mod Laws
pub mod Refusals
use shelf_auth.Prelude.{
  String, Option, ◌∷◌, some, trim_space, [], if◌then◌else◌, is_empty, ◌||◌, none,
}
use shelf_auth.Errors.{Error, errors_is, Result, invalid_credentials, err, ok, email_not_verified}
use shelf_auth.Platform.{Platform}
use shelf_auth.Http.{Response, switch, Request, fail, Handler, text, reply, access, text_of, serve}
use shelf_auth.Service.Config.{AuthService}
use shelf_auth.Http.Cookies.{CookieCfg, refresh_cookie}
use shelf_auth.Service.Login.{LoginResult, login}
use shelf_auth.Exec.{next}
use shelf_auth.Http.Address.{client_ip}

pub record LoginRequest : Type 0 where
  pub email : String
  pub password : String
  pub device_id : String

unfoldable pub login_failed : Error → Response
login_failed e =
    switch
      ((
        errors_is e invalid_credentials,
        fail 401 "INVALID_CREDENTIALS" (text "invalid credentials"),
      )
        ∷ (
          errors_is e email_not_verified,
          fail 403 "EMAIL_NOT_VERIFIED" (text "email not verified"),
        )
        ∷ [])
      (fail 500 "INTERNAL" (text_of "internal error: " e))

module _ (p : Platform) (s : AuthService) (cfg : CookieCfg) where
  -- The cookie's age is read from the clock.
  unfoldable pub login_reply : Result LoginResult → Handler
  login_reply (err e) w = reply (login_failed e) w
  login_reply (ok res) w = (
    record {
      status = 200;
      body = access res.access_token res.access_exp;
      cookie = some (refresh_cookie res.refresh_token res.refresh_exp cfg (p.clock w.tick));
    },
    next w,
  )

  unfoldable pub login_handler : Option LoginRequest → Request → Handler
  unfolding login_reply login_failed
  login_handler none r = reply (fail 400 "INVALID_JSON" (text "invalid JSON"))
  login_handler (some req) r =
      let email = trim_space req.email in
      let device_id = trim_space req.device_id in
      if is_empty email || is_empty req.password || is_empty device_id
      then reply (fail 400 "MISSING_FIELDS" (text "email, password and device_id are required"))
      else serve (login p s email req.password device_id (client_ip p r) r.user_agent) login_reply
