-- ===== src/Service/Register/Success.antt =====
-- Successful registrations (internal/service/register.go).
use shelf_auth.Domain.{Email, User, parse_email, new_user}
use shelf_auth.Repo.Users.{insert, insert_row, user_row, has_email}
use shelf_auth.Platform.{Platform, Time, EntityId}
use shelf_auth.Exec.{relabel, fresh, lift, statement, random, ◌>>=◌, now, Db, World, pure, UserRow}
use shelf_auth.Prelude.{
  String, Bool, ◌≡◌, trim_space, arith, true, any, false, ap, ◌++◌, ◌∙◌, ◌∷◌, [], sym, subst, refl,
  is_empty,
}
use shelf_auth.Service.Register.{register, RegisterResult}
use shelf_auth.Service.Config.{AuthService}
use shelf_auth.Errors.{or_else, sentinel, invalid_email, ok, ok-injective}
use shelf_auth.Security.Password.Hashing.{BcryptLaws, check-hash}
use shelf_auth.Security.Password.{validate_password, default_policy, check_password}
use shelf_auth.Exec.Inversion.{bind-eq-ok}

-- The account that a registration adds.
pub record IsRegistered (p : Platform) (s : AuthService) (email_raw password : String)
    (verified : Bool) (r : RegisterResult) (before after : Db) : Type 0 where
  pub row : UserRow
  pub id : row.id ≡ r.id
  pub email : row.email ≡ trim_space email_raw
  pub given : is_empty (trim_space email_raw) ≡ false
  pub address : p.is_address (trim_space email_raw) ≡ true
  pub reported : r.email ≡ trim_space email_raw
  pub flag : row.email_verified ≡ verified
  pub strong : validate_password p.runes default_policy password ≡ ok tt
  pub accepted : check_password p row.password_hash password s.pw_options ≡ ok tt
  pub unknown : any (has_email p row.email) before.users ≡ false
  pub users : after.users ≡ before.users ++ row ∷ []
  pub sessions : after.sessions ≡ before.sessions

insert-eq-ok :
    (p : Platform) (u : User) (w : World) {id : EntityId}
    → (insert p u w).0 ≡ ok id
    → (any (has_email p u.email.value) w.db.users ≡ false)
      × ((insert p u w).1.db ≡ record w.db { users = w.db.users ++ user_row u id ∷ [] })
unfolding insert insert_row relabel fresh statement ◌>>=◌
insert-eq-ok p u w h = (ground arith, ground arith)

parse_email-eq-ok :
    (p : Platform) (raw : String) {e : Email}
    → or_else (parse_email p raw) (sentinel invalid_email) ≡ ok e
    → (p.is_address (trim_space raw) ≡ true)
      × (e.value ≡ trim_space raw)
      × (is_empty (trim_space raw) ≡ false)
unfolding parse_email
parse_email-eq-ok p raw h = (ground arith, ground arith, ground arith)

new_user-eq-ok :
    (email : Email) (hash : String) (at : Time) {u : User}
    → new_user email hash at ≡ ok u
    → (u.email ≡ email) × (u.password_hash ≡ hash)
unfolding new_user
new_user-eq-ok email hash at h = (ground arith, ground arith)

-- A registration that succeeds was given a valid address, that no account had, and a password
-- that meets the policy; it added one account with the trimmed address, the id and the address
-- that it reported, the verification flag that it was given, and a hash that CheckPassword
-- accepts with the password. Nothing else has changed. A bcrypt hash matches what it was made
-- from, and is not blank.
pub register-eq-ok :
    (p : Platform) (s : AuthService) (laws : BcryptLaws p) (email_raw password : String)
    (verified : Bool) (w : World) (r : RegisterResult)
    → (register p s email_raw password verified w).0 ≡ ok r
    → IsRegistered p s email_raw password verified r w.db
        (register p s email_raw password verified w).1.db
unfolding register lift random now pure
register-eq-ok p s laws email_raw password verified w r h =
    let parse = bind-eq-ok _ _ w h in
    let strong = bind-eq-ok _ _ _ parse.rest in
    let hash = bind-eq-ok _ _ _ strong.rest in
    let clock = bind-eq-ok _ _ _ hash.rest in
    let make = bind-eq-ok _ _ _ clock.rest in
    let store = bind-eq-ok _ _ _ make.rest in
    let (address, trimmed, given) = parse_email-eq-ok p email_raw parse.first in
    let (same_email, same_hash) = new_user-eq-ok parse.value hash.value clock.value make.first in
    let user = record make.value { email_verified = verified } in
    let (unknown, added) = insert-eq-ok p user _ store.first in
    let email : user.email.value ≡ trim_space email_raw = ap (λ e. e.value) same_email ∙ trimmed in
    let result = ok-injective store.rest in
    let whole : (register p s email_raw password verified w).1.db
        ≡ record w.db { users = w.db.users ++ user_row user store.value ∷ [] } =
      rw (parse.whole, strong.whole, hash.whole, clock.whole, make.whole, store.whole) added in
    record {
      row = user_row user store.value;
      id = ap (λ x. x.id) result;
      email = email;
      given = given;
      address = address;
      reported = ap (λ x. x.email) (sym result) ∙ email;
      flag = refl;
      strong = strong.first;
      accepted =
          subst (λ x. check_password p x password s.pw_options ≡ ok tt) (sym same_hash)
            (check-hash p laws password hash.value s.pw_options s.pw_options _ refl hash.first);
      unknown = unknown;
      users = ap (λ d. d.users) whole;
      sessions = ap (λ d. d.sessions) whole;
    }
