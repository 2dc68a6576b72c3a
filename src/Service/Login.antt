-- ===== src/Service/Login.antt =====
-- AuthService.Login (internal/service/logging.go).
pub mod Success
pub mod Token
pub mod Works
use shelf_auth.Prelude.{String, if◌then◌else◌}
use shelf_auth.Platform.{Platform, Time}
use shelf_auth.Errors.{
  Result, ok, err, or_else, require, sentinel, invalid_credentials, email_not_verified, errors_is,
  no_rows,
}
use shelf_auth.Domain.{Email, User, parse_email, new_session}
use shelf_auth.Security.Password.{check_password}
use shelf_auth.Security.Token.{generate_opaque_token, hash_sha256_hex}
use shelf_auth.Exec.{Exec, pure, lift, ◌>>=◌, ◌>>◌, now, random, relabel}
use shelf_auth.Repo.Users.{find_by_email}
use shelf_auth.Repo.Sessions.{create}
use shelf_auth.Service.Config.{AuthService}

pub record LoginResult : Type 0 where
  pub access_token : String
  pub access_exp : Time
  pub refresh_token : String
  pub refresh_exp : Time

abbrev pub hide_unknown : Result User → Result User
hide_unknown (ok u) = ok u
hide_unknown (err e) = if errors_is e no_rows then err (sentinel invalid_credentials) else err e

abbrev pub find_user : Platform → Email → Exec User
find_user p email = relabel hide_unknown (find_by_email p email)

-- The steps before anything is issued.
unfoldable pub authenticate : Platform → AuthService → String → String → Exec User
authenticate p s email_raw password = do
  email ← lift (or_else (parse_email p email_raw) (sentinel invalid_credentials))
  u ← find_user p email
  lift (
      or_else (check_password p u.password_hash password s.pw_options)
        (sentinel invalid_credentials))
  lift (require u.email_verified (sentinel email_not_verified))
  pure u

-- The steps after: the access token, the refresh token and its session.
unfoldable pub issue : Platform → AuthService → User → String → String → String → Exec LoginResult
issue p s u device_id ip user_agent = do
  (access, access_exp) ←
      s.signer.sign_access (record { user_id = p.uuid_text u.id; email = u.email.value })
        s.access_ttl
  raw_refresh ← random (generate_opaque_token p 32)
  jti ← random (generate_opaque_token p 16)
  at ← now p
  sess ← lift (
      new_session p u.id device_id jti (hash_sha256_hex p raw_refresh) ip user_agent s.refresh_ttl
        at)
  create p sess
  pure (record {
    access_token = access;
    access_exp = access_exp;
    refresh_token = raw_refresh;
    refresh_exp = sess.expires_at;
  })

unfoldable pub login :
    Platform → AuthService → String → String → String → String → String → Exec LoginResult
unfolding authenticate issue
login p s email_raw password device_id ip user_agent = do
  u ← authenticate p s email_raw password
  issue p s u device_id ip user_agent
