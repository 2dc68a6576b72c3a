-- ===== src/Http/Refresh.antt =====
-- RefreshHandler (internal/httpserver/handlers/refresh.go).
pub mod Once
use shelf_auth.Errors.{
  Error, errors_is, Result, missing_refresh, err, invalid_refresh, ok, expired_refresh,
  revoked_refresh, reused_refresh,
}
use shelf_auth.Http.{Request, Response, switch, fail, Handler, text, reply, serve, access}
use shelf_auth.Platform.{Platform}
use shelf_auth.Prelude.{
  none, String, trim_space, if◌then◌else◌, is_empty, ◌∷◌, ◌||◌, some, [], Option,
}
use shelf_auth.Service.Config.{AuthService}
use shelf_auth.Http.Cookies.{CookieCfg, refresh_cookie}
use shelf_auth.Service.Refresh.{RefreshResult, refresh}
use shelf_auth.Http.Address.{client_ip}
use shelf_auth.Exec.{next}

unfoldable pub refresh_failed : Error → Response
refresh_failed e =
    switch
      ((errors_is e missing_refresh, fail 401 "MISSING_REFRESH" (text "refresh token missing"))
        ∷ (
          errors_is e invalid_refresh || errors_is e expired_refresh || errors_is e revoked_refresh,
          fail 401 "INVALID_REFRESH" (text "invalid or expired refresh"),
        )
        ∷ (
          errors_is e reused_refresh,
          fail 401 "REUSED_REFRESH" (text "refresh reuse detected, please login again"),
        )
        ∷ [])
      (fail 500 "INTERNAL" (text "internal error"))

abbrev pub device_of : Request → String
device_of r =
    let device_id = trim_space (r.header "X-Device-ID") in
    if is_empty device_id then "unknown" else device_id

module _ (p : Platform) (s : AuthService) (cfg : CookieCfg) where
  -- The cookie's age is read from the clock.
  unfoldable pub refresh_reply : Result RefreshResult → Handler
  refresh_reply (err e) w = reply (refresh_failed e) w
  refresh_reply (ok res) w = (
    record {
      status = 200;
      body = access res.access_token res.access_exp;
      cookie = some (refresh_cookie res.refresh_token res.refresh_exp cfg (p.clock w.tick));
    },
    next w,
  )

  abbrev pub no_cookie : Response
  no_cookie = fail 401 "MISSING_REFRESH" (text "refresh token cookie is required")

  unfoldable pub exchange : Request → String → Handler
  unfolding refresh_reply refresh_failed
  exchange r raw =
      if is_empty (trim_space raw)
      then reply no_cookie
      else serve (refresh p s raw (device_of r) (client_ip p r) r.user_agent) refresh_reply

  abbrev pub exchange_cookie : Request → Option String → Handler
  exchange_cookie r none = reply no_cookie
  exchange_cookie r (some raw) = exchange r raw

  unfoldable pub refresh_handler : Request → Handler
  unfolding exchange
  refresh_handler r = exchange_cookie r r.refresh_cookie
