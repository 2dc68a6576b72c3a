-- ===== src/Service/Login/Token.antt =====
-- The access token that a login returns (internal/service/logging.go).
use shelf_auth.Prelude.{
  some, String_eq, ℕ_eq, refl, String, trim_space, ◌≡◌, find, arith, subst, sym, ap, ◌∙◌,
}
use shelf_auth.Exec.{◌>>=◌, relabel, UserRow, statement, World, lift, pure}
use shelf_auth.Repo.Users.{find_by_email, has_email}
use shelf_auth.Domain.{parse_email, Email, User}
use shelf_auth.Platform.{Platform, EntityId}
use shelf_auth.Service.Login.{login, authenticate, issue, find_user, LoginResult}
use shelf_auth.Tokens.{AccessClaims}
use shelf_auth.Errors.{or_else, sentinel, invalid_credentials, ok, ok-injective}
use shelf_auth.Service.Config.{AuthService}
use shelf_auth.Exec.Inversion.{bind-eq-ok}

found_email :
    (p : Platform) (email : Email) (w : World) (row : UserRow) {u : User}
    → (find_user p email w).0 ≡ ok u
    → find (has_email p email.value) w.db.users ≡ some row
    → (u.id ≡ row.id) × (u.email.value ≡ trim_space row.email)
unfolding find_by_email relabel statement ◌>>=◌ parse_email
found_email p email w row h found = (ground arith, ground arith)

parse_email-trims :
    (p : Platform) (raw : String) {e : Email}
    → or_else (parse_email p raw) (sentinel invalid_credentials) ≡ ok e
    → e.value ≡ trim_space raw
unfolding parse_email
parse_email-trims p raw h = ground arith

-- The claims that a login signs for an account.
abbrev pub claims_of : Platform → UserRow → AccessClaims
claims_of p row = record { user_id = p.uuid_text row.id; email = trim_space row.email }

claims_of-parts :
    (p : Platform) (row : UserRow) (id : EntityId) (email : String)
    → id ≡ row.id
    → email ≡ trim_space row.email
    → claims_of p row ≡ record { user_id = p.uuid_text id; email = email }
claims_of-parts p row id email same_id same_email = rw (same_id, same_email) refl

-- What a login that succeeds has signed.
pub login-signs :
    (p : Platform) (s : AuthService) (email_raw password device_id ip user_agent : String)
    (w : World) (row : UserRow) (r : LoginResult)
    → (login p s email_raw password device_id ip user_agent w).0 ≡ ok r
    → find (has_email p (trim_space email_raw)) w.db.users ≡ some row
    → (s.signer.sign_access
        (claims_of p row)
        s.access_ttl
        (authenticate p s email_raw password w).1).0
      ≡ ok (r.access_token, r.access_exp)
unfolding login authenticate issue lift pure
login-signs p s email_raw password device_id ip user_agent w row r h found =
    let auth = bind-eq-ok _ _ w h in
    let parse = bind-eq-ok _ _ w auth.first in
    let search = bind-eq-ok _ _ _ parse.rest in
    let check = bind-eq-ok _ _ _ search.rest in
    let verify = bind-eq-ok _ _ _ check.rest in
    let same_user : search.value ≡ auth.value = ok-injective verify.rest in
    let (id, email) = found_email p parse.value w row search.first (
      subst (λ e. find (has_email p e) w.db.users ≡ some row)
        (sym (parse_email-trims p email_raw parse.first)) found) in
    let sign = bind-eq-ok _ _ _ auth.rest in
    let raw = bind-eq-ok _ _ _ sign.rest in
    let jti = bind-eq-ok _ _ _ raw.rest in
    let clock = bind-eq-ok _ _ _ jti.rest in
    let sess = bind-eq-ok _ _ _ clock.rest in
    let store = bind-eq-ok _ _ _ sess.rest in
    let result = ok-injective store.rest in
    let claims =
      claims_of-parts p row auth.value.id auth.value.email.value
        (ap (λ u. u.id) (sym same_user) ∙ id) (ap (λ u. u.email.value) (sym same_user) ∙ email) in
    ap (λ c. (s.signer.sign_access c s.access_ttl (authenticate p s email_raw password w).1).0)
      claims
    ∙ sign.first
    ∙ ap (λ x. ok (x.access_token, x.access_exp)) result
