-- ===== src/Http/Login/Laws.antt =====
-- Laws of LoginHandler (internal/httpserver/handlers/logging.go).
use shelf_auth.Platform.{Platform, Time}
use shelf_auth.Service.Config.{AuthService}
use shelf_auth.Http.Cookies.{CookieCfg, refresh_cookie}
use shelf_auth.Http.Login.{login_reply, LoginRequest, login_handler, login_failed}
use shelf_auth.Http.{Request, reply, fail, text, serve}
use shelf_auth.Tokens.{SignerLaws}
use shelf_auth.Errors.{Result, ok, err}
use shelf_auth.Exec.{World}
use shelf_auth.Service.Login.{LoginResult, login}
use shelf_auth.Prelude.{
  some, ◌≡◌, Bool-cases, trim_space, is_empty, arith, ◌||◌, refl, inl, inr, subst, if◌then◌else◌,
}
use shelf_auth.Service.Login.Success.{IsLoggedIn, login-eq-ok}
use shelf_auth.Http.Address.{client_ip}

module _ (p : Platform) (s : AuthService) (cfg : CookieCfg) where
  login_reply-status :
      (result : Result LoginResult) (w : World)
      → (login_reply p s cfg result w).0.status ≡ 200
      → (res : LoginResult) × (result ≡ ok res)
        × ((login_reply p s cfg result w).1.db ≡ w.db)
        × ((login_reply p s cfg result w).0.cookie
            ≡ some (refresh_cookie res.refresh_token res.refresh_exp cfg (p.clock w.tick)))
  unfolding login_reply login_failed
  login_reply-status (ok res) w h = (res, refl, refl, refl)
  login_reply-status (err e) w h = absurd (ground arith)

  abbrev pub IsAnswered : LoginRequest → Request → World → Type 0
  IsAnswered req r w =
      (res : LoginResult) × (at : Time) × IsLoggedIn p s (trim_space req.email) req.password
        (trim_space req.device_id) res w.db (login_handler p s cfg (some req) r w).1.db
      × ((login_handler p s cfg (some req) r w).0.cookie
          ≡ some (refresh_cookie res.refresh_token res.refresh_exp cfg at))

  -- A login request that is answered with 200 had the credentials of a verified account, for
  -- whose device one session was added, and the cookie of the answer holds the token of that
  -- session and the time of its end. The signer is one that leaves the database alone.
  pub login_handler-ok :
      (laws : SignerLaws s.signer) (req : LoginRequest) (r : Request) (w : World)
      → (login_handler p s cfg (some req) r w).0.status ≡ 200
      → IsAnswered req r w
  unfolding login_handler
  login_handler-ok laws req r w h =
      elim (Bool-cases (
        is_empty (trim_space req.email)
        || is_empty req.password
        || is_empty (trim_space req.device_id))) [
          | inl blank ↦ absurd (ground arith)
          | inr given ↦
              let served =
                login p s (trim_space req.email) req.password (trim_space req.device_id)
                  (client_ip p r) r.user_agent w in
              let (res, e, same, cookie) = login_reply-status served.0 served.1 (
                subst
                  (λ b.
                    ((if b
                        then reply (
                            fail 400 "MISSING_FIELDS"
                              (text "email, password and device_id are required"))
                        else serve
                            (login p s (trim_space req.email) req.password
                              (trim_space req.device_id) (client_ip p r) r.user_agent)
                            (login_reply p s cfg))
                      w).0.status
                    ≡ 200)
                  given h) in
              (
                res,
                p.clock served.1.tick,
                rw (given, same) (login-eq-ok p s laws _ _ _ _ _ w res e),
                rw given cookie,
              )
        ]
