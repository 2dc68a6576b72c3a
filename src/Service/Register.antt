-- ===== src/Service/Register.antt =====
-- AuthService.Register (internal/service/register.go).
pub mod Success
pub mod Login
pub mod Access
use shelf_auth.Prelude.{String, Bool}
use shelf_auth.Platform.{Platform, EntityId}
use shelf_auth.Errors.{or_else, sentinel, invalid_email}
use shelf_auth.Domain.{parse_email, new_user}
use shelf_auth.Security.Password.{validate_password, default_policy, hash_password}
use shelf_auth.Exec.{Exec, pure, lift, ◌>>=◌, ◌>>◌, now, random}
use shelf_auth.Repo.Users.{insert}
use shelf_auth.Service.Config.{AuthService}

pub record RegisterResult : Type 0 where
  pub id : EntityId
  pub email : String

unfoldable pub register : Platform → AuthService → String → String → Bool → Exec RegisterResult
register p s email_raw password verify_now = do
  email ← lift (or_else (parse_email p email_raw) (sentinel invalid_email))
  lift (validate_password p.runes default_policy password)
  hash ← random (hash_password p password s.pw_options)
  at ← now p
  u ← lift (new_user email hash at)
  id ← insert p (record u { email_verified = verify_now })
  pure (record { id = id; email = u.email.value })
