-- ===== src/Domain.antt =====
-- internal/domain: emails, users and refresh sessions, with the constructors that validate them.
-- `Now()` is an argument.
pub mod Lifecycle
pub mod Emails
use Prim.Native.String
use shelf_auth.Prelude.{
  ◌+◌, String, Bool, false, ◌&&◌, not, Option, none, some, is_some, is_empty, trim_space, ltb, ◌==◌,
  ℕ_eq, if◌then◌else◌,
}
use shelf_auth.Errors.{
  sentinel, failure, Result, ok, err, ◌>>=◌, ◌>>◌, require, invalid_email, empty_password_hash,
  invalid_device_id, invalid_jti, invalid_credentials,
}
use shelf_auth.Platform.{Platform, Time, Duration, EntityId, IpAddress}

pub record Email : Type 0 where
  pub value : String

pub record User : Type 0 where
  pub id : EntityId
  pub email : Email
  pub password_hash : String
  pub email_verified : Bool
  pub created_at : Time
  pub updated_at : Time

pub record Session : Type 0 where
  pub id : EntityId
  pub user_id : EntityId
  pub device_id : String
  pub jti : String
  pub refresh_hash : String
  pub ip : Option IpAddress
  pub user_agent : String
  pub created_at : Time
  pub expires_at : Time
  pub replaced_by : Option EntityId
  pub revoked_at : Option Time

-- uuid.Nil
abbrev pub nil_id : EntityId
nil_id = 0

-- ID.IsZero
abbrev pub is_zero : EntityId → Bool
is_zero id = id == nil_id

unfoldable pub non_empty : String → Bool
unfolding trim_space
non_empty s = not (is_empty (trim_space s))

-- Email.IsZero
abbrev pub is_zero_email : Email → Bool
is_zero_email e = is_empty e.value

unfoldable pub new_user : Email → String → Time → Result User
new_user email hash now = do
  require (not (is_zero_email email)) (sentinel invalid_email)
  require (non_empty hash) (sentinel empty_password_hash)
  ok (record {
    id = nil_id;
    email = email;
    password_hash = hash;
    email_verified = false;
    created_at = now;
    updated_at = now;
  })

module _ (p : Platform) where
  parse_trimmed : String → Result Email
  parse_trimmed s =
      if is_empty s
      then err (sentinel invalid_email)
      else if p.is_address s
      then ok (record { value = s })
      else err (sentinel invalid_email)

  unfoldable pub parse_email : String → Result Email
  unfolding parse_trimmed
  parse_email raw = parse_trimmed (trim_space raw)

  -- ID's ParseID
  unfoldable pub parse_id : String → Result EntityId
  parse_id s = elim (p.parse_uuid s) [ none ↦ err (failure "invalid UUID") | some u ↦ ok u ]

  unfoldable pub parse_ip : String → Result (Option IpAddress)
  parse_ip s = if is_empty s then ok none else elim (p.parse_net_ip s) [
    | none ↦ err (failure (String.◌++◌ "invalid ip address: " s))
    | some a ↦ ok (some a)
  ]

  unfoldable pub new_session :
      EntityId → String → String → String → String → String → Duration → Time → Result Session
  new_session user_id device_id jti refresh_hash ip user_agent ttl now = do
    require (not (is_zero user_id)) (sentinel invalid_credentials)
    require (non_empty device_id) (sentinel invalid_device_id)
    require (non_empty jti) (sentinel invalid_jti)
    require (non_empty refresh_hash) (sentinel invalid_credentials)
    parsed ← parse_ip ip
    ok (record {
      id = nil_id;
      user_id = user_id;
      device_id = device_id;
      jti = jti;
      refresh_hash = refresh_hash;
      ip = parsed;
      user_agent = user_agent;
      created_at = now;
      expires_at = now + ttl;
      replaced_by = none;
      revoked_at = none;
    })

-- User.Touch
unfoldable pub touch : User → Time → User
touch u now = record u { updated_at = now }

unfoldable pub is_expired : Session → Time → Bool
is_expired s at = not (ltb at s.expires_at)

unfoldable pub is_revoked : Session → Bool
is_revoked s = is_some s.revoked_at

unfoldable pub is_active : Session → Time → Bool
unfolding is_revoked is_expired
is_active s at = not (is_revoked s) && not (is_expired s at)

unfoldable pub revoke : Session → Time → Session
unfolding is_revoked
revoke s at = if is_revoked s then s else record s { revoked_at = some at }

unfoldable pub mark_rotated : Session → EntityId → Session
mark_rotated s new_id = record s { replaced_by = some new_id }
