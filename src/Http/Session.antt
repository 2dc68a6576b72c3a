-- ===== src/Http/Session.antt =====
-- LogoutHandler and MeHandler (internal/httpserver/handlers/logout.go and me.go).
pub mod Laws
use shelf_auth.Prelude.{Option, String, some, none, ◌∷◌, if◌then◌else◌, []}
use shelf_auth.Platform.{Platform, EntityId}
use shelf_auth.Errors.{Error, Result, errors_is, err, user_not_found, ok}
use shelf_auth.Http.Cookies.{CookieCfg, cleared_cookie}
use shelf_auth.Http.{Response, Request, switch, Handler, serve, reply, fail, no_body, text, profile}
use shelf_auth.Service.Me.{MeResult, me}
use shelf_auth.Service.Logout.{logout}
use shelf_auth.Domain.{is_zero}

-- The value of the cookie, or the empty text.
abbrev pub cookie_value : Option String → String
cookie_value none = ""
cookie_value (some v) = v

-- An error of the service is only logged.
unfoldable pub logout_handler : Platform → CookieCfg → Request → Handler
logout_handler p cfg r =
    serve (logout p (cookie_value r.refresh_cookie)) (λ result.
      reply (record { status = 204; body = no_body; cookie = some (cleared_cookie cfg) }))

unfoldable pub me_failed : Error → Response
me_failed e =
    switch ((errors_is e user_not_found, fail 401 "UNAUTHORIZED" (text "user not found")) ∷ [])
      (fail 500 "INTERNAL" (text "internal error"))

unfoldable pub me_reply : Result MeResult → Handler
unfolding me_failed
me_reply (err e) = reply (me_failed e)
me_reply (ok u) = reply (record {
  status = 200;
  body = profile u.id u.email u.email_verified u.created_at;
  cookie = none;
})

-- The user id that the middleware left in the request's context, if it did.
unfoldable pub me_handler : Platform → Option EntityId → Handler
unfolding me_reply
me_handler p none = reply (fail 401 "UNAUTHORIZED" (text "missing auth context"))
me_handler p (some id) =
    if is_zero id
    then reply (fail 401 "UNAUTHORIZED" (text "missing auth context"))
    else serve (me p id) me_reply
