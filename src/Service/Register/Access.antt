-- ===== src/Service/Register/Access.antt =====
-- A registration and then a whole login (internal/service/register.go and logging.go).
use shelf_auth.Prelude.{String_eq, ℕ_eq, String, true, ◌≡◌, false}
use shelf_auth.Platform.{Platform}
use shelf_auth.Service.Config.{AuthService}
use shelf_auth.Security.Password.Hashing.{BcryptLaws}
use shelf_auth.Tokens.{SignerLaws}
use shelf_auth.Service.Refresh.Works.{Works}
use shelf_auth.Exec.{World}
use shelf_auth.Service.Register.{RegisterResult, register}
use shelf_auth.Errors.{ok, is_ok}
use shelf_auth.Service.Login.Works.{IsFresh, login_works}
use shelf_auth.Domain.{is_zero, non_empty, parse_ip}
use shelf_auth.Service.Login.{LoginResult, login}
use shelf_auth.Service.Register.Login.{registered_authenticates}

-- After a registration that succeeds for a verified account, a login with the same address and password
-- succeeds, from a device that is not blank and an address that is empty or parses, where everything
-- that the program calls works, new identifiers are fresh, and the one of the account is not nil. A bcrypt
-- hash matches what it was made from, and is not blank, and the signer is one that leaves the database
-- alone.
pub registered_logs_in :
    (p : Platform) (s : AuthService) (bcrypt : BcryptLaws p) (laws : SignerLaws s.signer)
    (works : Works p s) (email_raw password device_id ip user_agent : String) (w : World)
    (r : RegisterResult)
    → (register p s email_raw password true w).0 ≡ ok r
    → IsFresh p (register p s email_raw password true w).1
    → is_zero r.id ≡ false
    → non_empty device_id ≡ true
    → is_ok (parse_ip p ip) ≡ true
    → (res : LoginResult) × ((login p s email_raw password device_id ip user_agent
          (register p s email_raw password true w).1).0
        ≡ ok res)
registered_logs_in p s bcrypt laws works email_raw password device_id ip user_agent w r registers
      ready valid device address =
    let v = (register p s email_raw password true w).1 in
    let (u, passed, same) =
      registered_authenticates p s bcrypt email_raw password w r registers (works.answers v.tick) in
    login_works p s works laws email_raw password device_id ip user_agent v u passed ready
      (rw same valid) device address
