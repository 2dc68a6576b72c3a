-- ===== src/Service/Login/Success.antt =====
-- Successful logins (internal/service/logging.go).
use shelf_auth.Platform.{Platform, EntityId, Duration, Time}
use shelf_auth.Domain.{parse_email, Email, Session, non_empty, User, new_session}
use shelf_auth.Security.Password.{check_password, Options, pre_kdf}
use shelf_auth.Prelude.{
  Bool, String, List, ◌≡◌, trim_space, ◌++◌, true, ◌∷◌, find, [], arith, ◌+◌, is_empty, some, none,
  false, Option-cases, inl, inr, subst, sym, ◌∙◌, ap, refl,
}
use shelf_auth.Repo.Users.{find_by_email, has_email}
use shelf_auth.Service.Config.{AuthService}
use shelf_auth.Errors.{Error, require, or_else, sentinel, ok, invalid_credentials, ok-injective}
use shelf_auth.Exec.{relabel, statement, UserRow, Db, ◌>>=◌, World, lift, pure, random, now}
use shelf_auth.Service.Login.{LoginResult, find_user, authenticate, issue, login}
use shelf_auth.Security.Token.{hash_sha256_hex}
use shelf_auth.Exec.Inversion.{bind-eq-ok}
use shelf_auth.Repo.Sessions.{as_row}
use shelf_auth.Tokens.{SignerLaws}
use shelf_auth.Repo.Rotation.{create-eq-ok}

-- The row that a login's credentials fit.
pub record IsAccount (p : Platform) (s : AuthService) (email_raw password : String)
    (users : List UserRow) (row : UserRow) : Type 0 where
  pub address : p.is_address (trim_space email_raw) ≡ true
  pub listed : find (has_email p (trim_space email_raw)) users ≡ some row
  pub matched : p.bcrypt_matches row.password_hash (pre_kdf p password s.pw_options.pepper) ≡ true
  pub given : is_empty password ≡ false
  pub verified : row.email_verified ≡ true

-- The session that a login adds for the token that it returns.
pub record IsIssued (p : Platform) (s : AuthService) (user_id : EntityId) (device_id : String)
    (r : LoginResult) (row : Session) : Type 0 where
  pub owner : row.user_id ≡ user_id
  pub device : row.device_id ≡ device_id
  pub device_given : non_empty device_id ≡ true
  pub hash : row.refresh_hash ≡ hash_sha256_hex p r.refresh_token
  pub end : row.expires_at ≡ row.created_at + s.refresh_ttl
  pub reported : r.refresh_exp ≡ row.expires_at
  pub unreplaced : row.replaced_by ≡ none
  pub unrevoked : row.revoked_at ≡ none

pub record IsLoggedIn (p : Platform) (s : AuthService) (email_raw password device_id : String)
    (r : LoginResult) (before after : Db) : Type 0 where
  pub account : UserRow
  pub accepted : IsAccount p s email_raw password before.users account
  pub session : Session
  pub issued : IsIssued p s account.id device_id r session
  pub users : after.users ≡ before.users
  pub sessions : after.sessions ≡ before.sessions ++ session ∷ []

parse_email-eq-ok :
    (p : Platform) (raw : String) {e : Email}
    → or_else (parse_email p raw) (sentinel invalid_credentials) ≡ ok e
    → (p.is_address (trim_space raw) ≡ true) × (e.value ≡ trim_space raw)
unfolding parse_email
parse_email-eq-ok p raw h = (ground arith, ground arith)

check_password-eq-ok :
    (p : Platform) (hash plain : String) (opt : Options) {u : Unit {0}}
    → or_else (check_password p hash plain opt) (sentinel invalid_credentials) ≡ ok u
    → (p.bcrypt_matches hash (pre_kdf p plain opt.pepper) ≡ true) × (is_empty plain ≡ false)
unfolding check_password
check_password-eq-ok p hash plain opt h = (ground arith, ground arith)

require-eq-ok : (b : Bool) (e : Error) {u : Unit {0}} → require b e ≡ ok u → b ≡ true
require-eq-ok b e h = ground arith

find_user-eq-ok :
    (p : Platform) (email : Email) (w : World) {u : User}
    → (find_user p email w).0 ≡ ok u
    → (row : UserRow) × (find (has_email p email.value) w.db.users ≡ some row)
      × (u.id ≡ row.id)
      × (u.password_hash ≡ row.password_hash)
      × (u.email_verified ≡ row.email_verified)
      × ((find_user p email w).1.db ≡ w.db)
unfolding find_by_email relabel statement ◌>>=◌
find_user-eq-ok p email w h = elim (Option-cases (find (has_email p email.value) w.db.users)) [
  | inl missing ↦ absurd (ground arith)
  | inr (row, found) ↦ (row, found, ground arith, ground arith, ground arith, ground arith)
]

pub authenticate-eq-ok :
    (p : Platform) (s : AuthService) (email_raw password : String) (w : World) {u : User}
    → (authenticate p s email_raw password w).0 ≡ ok u
    → (row : UserRow) × IsAccount p s email_raw password w.db.users row
      × (u.id ≡ row.id)
      × ((authenticate p s email_raw password w).1.db ≡ w.db)
unfolding authenticate lift pure
authenticate-eq-ok p s email_raw password w {u} h =
    let parse = bind-eq-ok _ _ w h in
    let find = bind-eq-ok _ _ _ parse.rest in
    let check = bind-eq-ok _ _ _ find.rest in
    let verify = bind-eq-ok _ _ _ check.rest in
    let (address, trimmed) = parse_email-eq-ok p email_raw parse.first in
    let (row, listed, id, hash, flag, same) = find_user-eq-ok p parse.value w find.first in
    let (matched, given) =
      check_password-eq-ok p find.value.password_hash password s.pw_options check.first in
    (
      row,
      record {
        address = address;
        listed =
            subst (λ e. shelf_auth.Prelude.find (has_email p e) w.db.users ≡ some row) trimmed
              listed;
        matched =
            subst (λ x. p.bcrypt_matches x (pre_kdf p password s.pw_options.pepper) ≡ true) hash
              matched;
        given = given;
        verified = sym flag ∙ require-eq-ok _ _ verify.first;
      },
      ap (λ x. x.id) (sym (ok-injective verify.rest)) ∙ id,
      rw (parse.whole, find.whole, check.whole, verify.whole) same,
    )

new_session-eq-ok :
    (p : Platform) (user_id : EntityId) (device_id jti hash ip user_agent : String) (ttl : Duration)
    (at : Time) {t : Session}
    → new_session p user_id device_id jti hash ip user_agent ttl at ≡ ok t
    → (t.user_id ≡ user_id)
      × (t.device_id ≡ device_id)
      × (non_empty device_id ≡ true)
      × (t.refresh_hash ≡ hash)
      × (t.created_at ≡ at)
      × (t.expires_at ≡ at + ttl)
unfolding new_session
new_session-eq-ok p user_id device_id jti hash ip user_agent ttl at h = ground arith

abbrev with_session : Session → Db → Db
with_session t d = record d { sessions = d.sessions ++ t ∷ [] }

IsIssued-of_parts :
    (p : Platform) (s : AuthService) (user_id : EntityId) (device_id jti raw ip user_agent : String)
    (at : Time) (t : Session) (id : EntityId) (r : LoginResult)
    → new_session p user_id device_id jti (hash_sha256_hex p raw) ip user_agent s.refresh_ttl at
      ≡ ok t
    → raw ≡ r.refresh_token
    → t.expires_at ≡ r.refresh_exp
    → IsIssued p s user_id device_id r (as_row t id)
IsIssued-of_parts p s user_id device_id jti raw ip user_agent at t id r h token exp =
    let (owner, device, given, hash, start, end) =
      new_session-eq-ok p user_id device_id jti (hash_sha256_hex p raw) ip user_agent s.refresh_ttl
        at h in
    record {
      owner = owner;
      device = device;
      device_given = given;
      hash = hash ∙ ap (hash_sha256_hex p) token;
      end = end ∙ ap (λ x. x + s.refresh_ttl) (sym start);
      reported = sym exp;
      unreplaced = refl;
      unrevoked = refl;
    }

module _ (p : Platform) (s : AuthService) (laws : SignerLaws s.signer)
    (device_id ip user_agent : String) where
  pub issue-eq-ok :
      (u : User) (w : World) {r : LoginResult}
      → (issue p s u device_id ip user_agent w).0 ≡ ok r
      → (t : Session) × IsIssued p s u.id device_id r t
        × ((issue p s u device_id ip user_agent w).1.db ≡ with_session t w.db)
  unfolding issue random lift now pure
  issue-eq-ok u w {r} h =
      let sign = bind-eq-ok _ _ w h in
      let raw = bind-eq-ok _ _ _ sign.rest in
      let jti = bind-eq-ok _ _ _ raw.rest in
      let clock = bind-eq-ok _ _ _ jti.rest in
      let sess = bind-eq-ok _ _ _ clock.rest in
      let store = bind-eq-ok _ _ _ sess.rest in
      let (id, added) = create-eq-ok p sess.value _ store.first in
      let result = ok-injective store.rest in
      (
        as_row sess.value id,
        IsIssued-of_parts p s u.id device_id jti.value raw.value ip user_agent clock.value
            sess.value id r sess.first (ap (λ x. x.refresh_token) result)
            (ap (λ x. x.refresh_exp) result),
        rw (sign.whole, raw.whole, jti.whole, clock.whole, sess.whole, store.whole)
            (added ∙ ap (with_session (as_row sess.value id)) (laws.keeps_db _ _ w)),
      )

  -- A login that succeeds was given a valid address, an account's verified email and a password
  -- that matches the account's hash, and a device id; it added one session, of that account and
  -- device, with the hash of the token that it returned, not revoked and not replaced, which ends
  -- the refresh TTL after its creation, the time that it reported. Nothing else has changed. The
  -- signer is one that leaves the database alone.
  pub login-eq-ok :
      (email_raw password : String) (w : World) (r : LoginResult)
      → (login p s email_raw password device_id ip user_agent w).0 ≡ ok r
      → IsLoggedIn p s email_raw password device_id r w.db
          (login p s email_raw password device_id ip user_agent w).1.db
  unfolding login
  login-eq-ok email_raw password w r h =
      let auth = bind-eq-ok _ _ w h in
      let (row, accepted, same_id, same) = authenticate-eq-ok p s email_raw password w auth.first in
      let (t, issued, added) = issue-eq-ok auth.value _ auth.rest in
      record {
        account = row;
        accepted = accepted;
        session = t;
        issued = subst (λ i. IsIssued p s i device_id r t) same_id issued;
        users = ap (λ v. v.db.users) auth.whole ∙ ap (λ d. d.users) added ∙ ap (λ d. d.users) same;
        sessions =
            ap (λ v. v.db.sessions) auth.whole
            ∙ ap (λ d. d.sessions) added
            ∙ ap (λ d. d.sessions ++ t ∷ []) same;
      }
