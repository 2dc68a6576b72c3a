-- ===== src/Http/Refresh/Once.antt =====
-- Laws of RefreshHandler (internal/httpserver/handlers/refresh.go).
use shelf_auth.Platform.{Platform}
use shelf_auth.Service.Config.{AuthService}
use shelf_auth.Http.Cookies.{CookieCfg}
use shelf_auth.Http.Refresh.{refresh_reply, exchange, refresh_failed, device_of, no_cookie}
use shelf_auth.Errors.{Result, ok, err}
use shelf_auth.Http.{Request, reply, serve}
use shelf_auth.Service.Refresh.{RefreshResult, refresh}
use shelf_auth.Prelude.{
  String, ◌≡◌, arith, refl, Bool-cases, subst, is_empty, trim_space, inl, inr, if◌then◌else◌,
}
use shelf_auth.Exec.{World}
use shelf_auth.Http.Address.{client_ip}

module _ (p : Platform) (s : AuthService) (cfg : CookieCfg) where
  refresh_reply-status :
      (res : Result RefreshResult) (w : World)
      → (refresh_reply p s cfg res w).0.status ≡ 200
      → (r : RefreshResult) × (res ≡ ok r)
  unfolding refresh_reply refresh_failed
  refresh_reply-status (ok r) w h = (r, refl)
  refresh_reply-status (err e) w h = absurd (ground arith)

  refresh_reply-db :
      (res : Result RefreshResult) (w : World) → (refresh_reply p s cfg res w).1.db ≡ w.db
  unfolding refresh_reply
  refresh_reply-db (ok r) w = refl
  refresh_reply-db (err e) w = refl

  pub exchange-status :
      (r : Request) (raw : String) (w : World)
      → (exchange p s cfg r raw w).0.status ≡ 200
      → (res : RefreshResult) × ((refresh p s raw (device_of r) (client_ip p r) r.user_agent w).0
          ≡ ok res)
        × ((exchange p s cfg r raw w).1.db
            ≡ (refresh p s raw (device_of r) (client_ip p r) r.user_agent w).1.db)
  unfolding exchange
  exchange-status r raw w h = elim (Bool-cases (is_empty (trim_space raw))) [
    | inl blank ↦ absurd (ground arith)
    | inr given ↦
        let served = refresh p s raw (device_of r) (client_ip p r) r.user_agent w in
        let (res, e) = refresh_reply-status served.0 served.1 (
          subst
            (λ b.
              ((if b
                  then reply (no_cookie p s cfg)
                  else serve (refresh p s raw (device_of r) (client_ip p r) r.user_agent)
                      (refresh_reply p s cfg))
                w).0.status
              ≡ 200)
            given h) in
        (res, e, rw given (refresh_reply-db served.0 served.1))
  ]
