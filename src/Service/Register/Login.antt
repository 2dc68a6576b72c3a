-- ===== src/Service/Register/Login.antt =====
-- A registration and then a login with its credentials (internal/service/register.go and
-- logging.go).
use shelf_auth.Exec.{UserRow, Db, World, statement, ◌>>=◌}
use shelf_auth.Platform.{Platform}
use shelf_auth.Prelude.{
  Bool, List, String, any, ◌≡◌, false, true, find, ◌++◌, ◌∷◌, trim_space, [], some, arith, is_empty,
  text_eq_iff, none, trim_space_idem, refl, ◌∙◌,
}
use shelf_auth.Service.Config.{AuthService}
use shelf_auth.Service.Register.{RegisterResult, register}
use shelf_auth.Service.Register.Success.{IsRegistered, register-eq-ok}
use shelf_auth.Service.Login.{authenticate}
use shelf_auth.Repo.Users.{find_by_email, has_email}
use shelf_auth.Domain.{parse_email, User}
use shelf_auth.Security.Password.{check_password}
use shelf_auth.Errors.{ok}
use shelf_auth.Security.Password.Hashing.{BcryptLaws}

found_last :
    (test : UserRow → Bool) (rows : List UserRow) (row : UserRow)
    → any test rows ≡ false
    → test row ≡ true
    → find test (rows ++ row ∷ []) ≡ some row
found_last test [] row h k = ground arith
found_last test (x ∷ xs) row h k = ground (arith, found_last test xs row)

module _ (p : Platform) (s : AuthService) (email_raw password : String) (r : RegisterResult)
    (before : Db) (w : World) where
  found_account :
      (g : IsRegistered p s email_raw password true r before w.db)
      → find (has_email p (trim_space email_raw)) w.db.users ≡ some g.row
  found_account g =
      rw (← g.email, g.users)
        (found_last (has_email p g.row.email) before.users g.row g.unknown
          (ground (arith, text_eq_iff (p.citext g.row.email) (p.citext g.row.email))))

-- An account that a login's credentials fit.
module _ (p : Platform) (s : AuthService) (email_raw password : String) (w : World) where
  pub authenticates :
      (row : UserRow)
      → is_empty (trim_space email_raw) ≡ false
      → p.is_address (trim_space email_raw) ≡ true
      → find (has_email p (trim_space email_raw)) w.db.users ≡ some row
      → row.email ≡ trim_space email_raw
      → row.email_verified ≡ true
      → check_password p row.password_hash password s.pw_options ≡ ok tt
      → p.fault w.tick ≡ none
      → (u : User) × ((authenticate p s email_raw password w).0 ≡ ok u) × (u.id ≡ row.id)
  unfolding authenticate find_by_email parse_email statement ◌>>=◌
  authenticates row given address found same verified matched answers = (
    record {
      id = row.id;
      email = record { value = trim_space email_raw };
      password_hash = row.password_hash;
      email_verified = row.email_verified;
      created_at = row.created_at;
      updated_at = row.updated_at;
    },
    ground (arith, trim_space_idem email_raw),
    refl,
  )

-- After a registration that succeeds for a verified account, the credential checks of a login
-- with the same address and password succeed, for the account that was registered, where the
-- database answers. A bcrypt hash matches what it was made from, and is not blank.
pub registered_authenticates :
    (p : Platform) (s : AuthService) (laws : BcryptLaws p) (email_raw password : String) (w : World)
    (r : RegisterResult)
    → (register p s email_raw password true w).0 ≡ ok r
    → p.fault (register p s email_raw password true w).1.tick ≡ none
    → (u : User) × ((authenticate p s email_raw password
          (register p s email_raw password true w).1).0
        ≡ ok u)
      × (u.id ≡ r.id)
registered_authenticates p s laws email_raw password w r h answers =
    let g = register-eq-ok p s laws email_raw password true w r h in
    let v = (register p s email_raw password true w).1 in
    let (u, passed, same) =
      authenticates p s email_raw password v g.row g.given g.address
        (found_account p s email_raw password r w.db v g) g.email g.flag g.accepted answers in
    (u, passed, same ∙ g.id)
