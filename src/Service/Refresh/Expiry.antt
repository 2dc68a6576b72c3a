-- ===== src/Service/Refresh/Expiry.antt =====
-- AuthService.Refresh (internal/service/refresh.go) around the end of a session.
use shelf_auth.Service.Refresh.{refresh_found, rotate_session}
use shelf_auth.Domain.{is_active, Session}
use shelf_auth.Exec.{◌>>=◌, World}
use shelf_auth.Platform.{Platform, Time}
use shelf_auth.Service.Config.{AuthService}
use shelf_auth.Prelude.{String, ◌≡◌, none, false, suc, ◌+◌, arith}
use shelf_auth.Errors.{err, sentinel, expired_refresh}

-- At the very time of its end a session that is neither revoked nor replaced is no longer active,
-- and a refresh of it is rotated all the same; past its end it is refused as expired.
pub refresh_at_end :
    (p : Platform) (s : AuthService) (sess : Session) (at : Time) (device_id ip user_agent : String)
    (w : World)
    → sess.revoked_at ≡ none
    → sess.replaced_by ≡ none
    → (is_active sess sess.expires_at ≡ false)
      × (refresh_found p s sess sess.expires_at device_id ip user_agent w
          ≡ rotate_session p s sess sess.expires_at device_id ip user_agent w)
      × (refresh_found p s sess (suc (sess.expires_at + at)) device_id ip user_agent w
          ≡ (err (sentinel expired_refresh), w))
unfolding refresh_found is_active ◌>>=◌
refresh_at_end p s sess at device_id ip user_agent w unrevoked unreplaced =
    (ground arith, ground arith, ground arith)
