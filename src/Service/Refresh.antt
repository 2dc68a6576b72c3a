-- ===== src/Service/Refresh.antt =====
-- AuthService.Refresh (internal/service/refresh.go).
pub mod Rotation
pub mod Spent
pub mod Expiry
pub mod Reuse
pub mod Works
pub mod Token
use shelf_auth.Prelude.{String, ◌+◌, none, is_some, ltb, if◌then◌else◌, Option}
use shelf_auth.Platform.{Platform, Time, IpAddress, EntityId}
use shelf_auth.Errors.{
  Result, ok, err, require, sentinel, not_found, missing_refresh, invalid_refresh, expired_refresh,
  revoked_refresh, reused_refresh, errors_is,
}
use shelf_auth.Domain.{Session, nil_id, non_empty, parse_ip}
use shelf_auth.Security.Token.{generate_opaque_token, hash_sha256_hex}
use shelf_auth.Exec.{Exec, pure, lift, raise, ◌>>=◌, ◌>>◌, now, fresh, random, relabel}
use shelf_auth.Repo.Sessions.{find_by_hash, rotate, revoke_all_by_user_and_device}
use shelf_auth.Service.Config.{AuthService}

pub record RefreshResult : Type 0 where
  pub access_token : String
  pub access_exp : Time
  pub refresh_token : String
  pub refresh_exp : Time

abbrev pub hide_missing : Result Session → Result Session
hide_missing (ok s) = ok s
hide_missing (err e) = if errors_is e not_found then err (sentinel invalid_refresh) else err e

abbrev pub find_session : Platform → String → Exec Session
find_session p hash = relabel hide_missing (find_by_hash p hash)

-- `_ = f(…)`: the error is dropped.
abbrev pub ignore : Exec (Unit {0}) → Exec (Unit {0})
ignore = relabel (λ _. ok tt)

-- A token that was already rotated: all sessions of its user and device end.
unfoldable pub reject_reuse : Platform → Session → Time → Exec RefreshResult
reject_reuse p sess at = do
  ignore (revoke_all_by_user_and_device p sess.user_id sess.device_id at)
  raise (sentinel reused_refresh)

-- The session of the new token.
abbrev pub successor :
    Platform
    → AuthService
    → Session
    → Time
    → String
    → Option IpAddress
    → String
    → EntityId
    → String
    → Session
successor p s sess at device_id ip user_agent jti raw = record {
  id = nil_id;
  user_id = sess.user_id;
  device_id = device_id;
  jti = p.uuid_text jti;
  refresh_hash = hash_sha256_hex p raw;
  ip = ip;
  user_agent = user_agent;
  created_at = at;
  expires_at = at + s.refresh_ttl;
  replaced_by = none;
  revoked_at = none;
}

unfoldable pub rotate_session :
    Platform → AuthService → Session → Time → String → String → String → Exec RefreshResult
rotate_session p s sess at device_id ip user_agent = do
  (access, exp) ←
      s.signer.sign_access (record { user_id = p.uuid_text sess.user_id; email = "" }) s.access_ttl
  new_raw ← random (generate_opaque_token p 32)
  parsed ← lift (parse_ip p ip)
  jti ← fresh p
  let new_sess = successor p s sess at device_id parsed user_agent jti new_raw
  rotate p sess.jti new_sess
  pure (record {
    access_token = access;
    access_exp = exp;
    refresh_token = new_raw;
    refresh_exp = new_sess.expires_at;
  })

-- The checks on the session that was found, in their order.
unfoldable pub refresh_found :
    Platform → AuthService → Session → Time → String → String → String → Exec RefreshResult
refresh_found p s sess at device_id ip user_agent =
    if is_some sess.revoked_at
    then raise (sentinel revoked_refresh)
    else if ltb sess.expires_at at
    then raise (sentinel expired_refresh)
    else if is_some sess.replaced_by
    then reject_reuse p sess at
    else rotate_session p s sess at device_id ip user_agent

unfoldable pub refresh :
    Platform → AuthService → String → String → String → String → Exec RefreshResult
refresh p s raw_refresh device_id ip user_agent = do
  lift (require (non_empty raw_refresh) (sentinel missing_refresh))
  sess ← find_session p (hash_sha256_hex p raw_refresh)
  at ← now p
  refresh_found p s sess at device_id ip user_agent
