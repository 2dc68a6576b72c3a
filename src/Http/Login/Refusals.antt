-- ===== src/Http/Login/Refusals.antt =====
-- Logins with wrong credentials (internal/httpserver/handlers/logging.go and internal/service/logging.go).
use shelf_auth.Prelude.{
  none, some, String_eq, ℕ_eq, refl, String, List, trim_space, ◌≡◌, false, find, is_empty, true,
  ◌||◌, arith,
}
use shelf_auth.Exec.{◌>>=◌, UserRow, statement, World}
use shelf_auth.Platform.{Platform}
use shelf_auth.Service.Config.{AuthService}
use shelf_auth.Service.Login.{login, authenticate}
use shelf_auth.Http.Login.{login_handler, login_reply, login_failed, LoginRequest}
use shelf_auth.Repo.Users.{find_by_email, has_email}
use shelf_auth.Domain.{parse_email}
use shelf_auth.Http.Cookies.{CookieCfg}
use shelf_auth.Security.Password.{check_password, pre_kdf}
use shelf_auth.Http.{Request, fail, text}
use shelf_auth.Errors.{err, sentinel, invalid_credentials}
use shelf_auth.Http.Address.{client_ip}

-- What can be wrong with an address and a password: the address is none, no account has it, or the
-- password does not match the hash of its account, whose stored address is one.
pub data IsWrong (p : Platform) (s : AuthService) (email_raw password : String)
    (users : List UserRow) : Type 0 where
  no_address : p.is_address (trim_space email_raw) ≡ false → IsWrong p s email_raw password users
  no_account :
      find (has_email p (trim_space email_raw)) users ≡ none → IsWrong p s email_raw password users
  no_match :
      (row : UserRow)
      → find (has_email p (trim_space email_raw)) users ≡ some row
      → is_empty (trim_space row.email) ≡ false
      → p.is_address (trim_space row.email) ≡ true
      → p.bcrypt_matches row.password_hash (pre_kdf p password s.pw_options.pepper) ≡ false
      → IsWrong p s email_raw password users

module _ (p : Platform) (s : AuthService) where
  wrong_login :
      (email_raw password device_id ip user_agent : String) (w : World)
      → IsWrong p s email_raw password w.db.users
      → p.fault w.tick ≡ none
      → ((login p s email_raw password device_id ip user_agent w).0
          ≡ err (sentinel invalid_credentials))
        × ((login p s email_raw password device_id ip user_agent w).1.db ≡ w.db)
  unfolding login authenticate find_by_email parse_email statement ◌>>=◌ check_password
  wrong_login email_raw password device_id ip user_agent w (no_address h) answers =
      (ground arith, ground arith)
  wrong_login email_raw password device_id ip user_agent w (no_account h) answers =
      (ground arith, ground arith)
  wrong_login email_raw password device_id ip user_agent w (no_match row listed given address other)
        answers =
      (ground arith, ground arith)

  -- The answer to a login does not tell which addresses have accounts: a request with an address, a
  -- password and a device is answered in the same way, with 401 and INVALID_CREDENTIALS, whether its
  -- address is none, no account has it, or the password is not that of its account, and the tables
  -- stay as they were; where the database answers the query, and an account's stored address is one.
  pub login_handler_alike :
      (cfg : CookieCfg) (req : LoginRequest) (r : Request) (w : World)
      → (is_empty (trim_space req.email)
          || is_empty req.password
          || is_empty (trim_space req.device_id))
        ≡ false
      → IsWrong p s (trim_space req.email) req.password w.db.users
      → p.fault w.tick ≡ none
      → ((login_handler p s cfg (some req) r w).0
          ≡ fail 401 "INVALID_CREDENTIALS" (text "invalid credentials"))
        × ((login_handler p s cfg (some req) r w).1.db ≡ w.db)
  unfolding login_handler login_reply login_failed
  login_handler_alike cfg req r w given wrong answers =
      let (refused, same) =
        wrong_login (trim_space req.email) req.password (trim_space req.device_id) (client_ip p r)
          r.user_agent w wrong answers in
      (rw (given, refused) refl, rw (given, refused) same)
