-- ===== src/Http/Routes/Once.antt =====
-- Requests to the route of /refresh, and the tokens that they spend (internal/httpserver).
use shelf_auth.Prelude.{some, String_eq, ℕ_eq, String, ◌≡◌, ◌≢◌, Option, subst, sym}
use shelf_auth.Platform.{Platform}
use shelf_auth.Http.Routes.{Server, Visit, status_of, handle, refresh_page, post_method}
use shelf_auth.Tokens.{SignerLaws}
use shelf_auth.Exec.{World}
use shelf_auth.Http.Refresh.{refresh_handler, device_of, exchange_cookie}
use shelf_auth.Http.{Request}
use shelf_auth.Service.Refresh.{RefreshResult, refresh}
use shelf_auth.Http.Address.{client_ip}
use shelf_auth.Errors.{ok}
use shelf_auth.Repo.Searches.{IsSpent}
use shelf_auth.Security.Token.{hash_sha256_hex}
use shelf_auth.Service.Refresh.Spent.{refresh_of_spent, IsSpent-of_refresh}
use shelf_auth.Http.Refresh.Once.{exchange-status}

module _ (p : Platform) (srv : Server) (laws : SignerLaws srv.service.signer) where
  -- A request that is answered with 200 exchanged its token, and spends it.
  abbrev Spends : Request → String → World → Option String → Type 0
  Spends r raw w cookie =
      (exchange_cookie p srv.service srv.cookies r cookie w).0.status ≡ 200
      → ((res : RefreshResult) × ((refresh p srv.service raw (device_of r) (client_ip p r)
              r.user_agent w).0
            ≡ ok res))
        × IsSpent (hash_sha256_hex p raw)
            (exchange_cookie p srv.service srv.cookies r cookie w).1.db

  exchange_cookie-Spends :
      (r : Request) (raw : String) (w : World) (cookie : Option String)
      → cookie ≡ some raw
      → Spends r raw w cookie
  exchange_cookie-Spends r raw w cookie same = subst (Spends r raw w) (sym same) (λ h.
      let (res, e, kept) = exchange-status p srv.service srv.cookies r raw w h in
      ((res, e), rw kept (IsSpent-of_refresh p srv.service laws raw _ _ _ w e)))

  pub refresh_page-spends :
      (v : Visit) (raw : String) (w : World)
      → v.request.refresh_cookie ≡ some raw
      → status_of (handle p srv refresh_page post_method v w).0 ≡ 200
      → IsSpent (hash_sha256_hex p raw) (handle p srv refresh_page post_method v w).1.db
  unfolding handle refresh_handler
  refresh_page-spends v raw w same h =
      (exchange_cookie-Spends v.request raw w v.request.refresh_cookie same h).1

  pub refresh_page_of_spent :
      (v : Visit) (raw : String) (w : World)
      → v.request.refresh_cookie ≡ some raw
      → IsSpent (hash_sha256_hex p raw) w.db
      → status_of (handle p srv refresh_page post_method v w).0 ≢ 200
  unfolding handle refresh_handler
  refresh_page_of_spent v raw w same spent h =
      let (res, e) = (exchange_cookie-Spends v.request raw w v.request.refresh_cookie same h).0 in
      refresh_of_spent p srv.service laws raw _ _ _ w res spent e
