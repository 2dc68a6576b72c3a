-- ===== src/Domain/Lifecycle.antt =====
-- Laws of Session (internal/domain/session.go).
use shelf_auth.Prelude.{String, ◌≡◌, ◌+◌, ltb, false, arith}
use shelf_auth.Domain.{new_session, is_active, revoke, Session}
use shelf_auth.Platform.{Platform, EntityId, Duration, Time}
use shelf_auth.Errors.{ok}

-- A session that NewSession returns has its creation time, ends the TTL later, and is active exactly
-- until then; once it was revoked it is active at no time, and revoking it again changes nothing.
pub session_life :
    (p : Platform) (user_id : EntityId) (device_id jti hash ip user_agent : String) (ttl : Duration)
    (now at revoked again : Time) (s : Session)
    → new_session p user_id device_id jti hash ip user_agent ttl now ≡ ok s
    → (s.created_at ≡ now)
      × (s.expires_at ≡ now + ttl)
      × (is_active s at ≡ ltb at (now + ttl))
      × (is_active (revoke s revoked) at ≡ false)
      × (revoke (revoke s revoked) again ≡ revoke s revoked)
unfolding new_session is_active revoke
session_life p user_id device_id jti hash ip user_agent ttl now at revoked again s h =
    (ground arith, ground arith, ground arith, ground arith, ground arith)
