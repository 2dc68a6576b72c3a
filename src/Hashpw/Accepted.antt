-- ===== src/Hashpw/Accepted.antt =====
-- The hash that tools/hashpw/main.go prints, in an account of the service (internal/service/logging.go).
use shelf_auth.Prelude.{
  none, some, [], String_eq, ℕ_eq, refl, String, ℕ, is_empty, ◌≡◌, false, arith, List, trim_space,
  true, find,
}
use shelf_auth.Security.Password.{
  hash_password, Options, pre_kdf, cost_of, default_bcrypt_cost, default_options,
}
use shelf_auth.Hashpw.{hashpw}
use shelf_auth.Platform.{Platform, Bytes}
use shelf_auth.Service.Config.{AuthService}
use shelf_auth.Security.Password.Hashing.{BcryptLaws, check-hash}
use shelf_auth.Exec.{World, UserRow}
use shelf_auth.Errors.{ok}
use shelf_auth.Domain.{User}
use shelf_auth.Service.Login.{authenticate}
use shelf_auth.Service.Register.Login.{authenticates}
use shelf_auth.Repo.Users.{has_email}

-- An account with a hash, verified, whose address is the one of a login.
pub record HasHash (p : Platform) (email_raw hash : String) (users : List UserRow) (row : UserRow)
    : Type 0 where
  pub given : is_empty (trim_space email_raw) ≡ false
  pub address : p.is_address (trim_space email_raw) ≡ true
  pub listed : find (has_email p (trim_space email_raw)) users ≡ some row
  pub email : row.email ≡ trim_space email_raw
  pub verified : row.email_verified ≡ true
  pub held : row.password_hash ≡ hash

hash_password-of_generated :
    (p : Platform) (pw hash : String) (opt : Options) (salt : ℕ)
    → is_empty pw ≡ false
    → p.bcrypt_generate salt (pre_kdf p pw opt.pepper) (cost_of p opt) ≡ some hash
    → hash_password p pw opt salt ≡ ok hash
unfolding hash_password
hash_password-of_generated p pw hash opt salt given made = ground arith

-- For a password that is not empty, and no pepper, the tool ends with status 0 and prints the hash that bcrypt makes at
-- the default cost; where a verified account of the service holds it, the credential checks of a login
-- with the account's address and that password succeed, for that account. The service has no
-- pepper, the database answers, and a bcrypt hash matches what it was made from, and is not blank.
pub hashpw_authenticates :
    (p : Platform) (utf8 : String → Bytes) (s : AuthService) (laws : BcryptLaws p)
    (pw hash : String) (salt : ℕ) (email_raw : String) (w : World) (row : UserRow)
    → s.pw_options.pepper ≡ []
    → is_empty pw ≡ false
    → p.bcrypt_generate salt (pre_kdf p pw []) default_bcrypt_cost ≡ some hash
    → HasHash p email_raw hash w.db.users row
    → p.fault w.tick ≡ none
    → (hashpw p utf8 pw "" salt ≡ record { status = 0; printed = some hash })
      × (u : User) × ((authenticate p s email_raw pw w).0 ≡ ok u)
      × (u.id ≡ row.id)
unfolding hashpw
hashpw_authenticates p utf8 s laws pw hash salt email_raw w row bare given made account answers =
    let hashed = hash_password-of_generated p pw hash default_options salt given made in
    let (u, passed, same) =
      authenticates p s email_raw pw w row account.given account.address account.listed
        account.email account.verified
        (rw account.held (check-hash p laws pw hash default_options s.pw_options salt bare hashed))
        answers in
    (rw (given, hashed) refl, u, passed, same)
