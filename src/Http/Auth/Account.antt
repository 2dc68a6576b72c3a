-- ===== src/Http/Auth/Account.antt =====
-- GET /me with an access token that was signed for an account (internal/httpserver and
-- internal/auth/signer).
use shelf_auth.Prelude.{
  none, some, String_eq, ℕ_eq, refl, ◌≡◌, trim_space, String, append, false, find,
  trim_prefix-append, ◌==◌, arith, ◌≤◌, suc, ◌<◌, is_empty, ap, ◌∙◌, ℕ, true,
}
use shelf_auth.Exec.{◌>>=◌, UserRow, statement, World, next}
use shelf_auth.Http.Session.{me_handler, me_reply}
use shelf_auth.Domain.{parse_id, parse_email, is_zero}
use shelf_auth.Http.Auth.{auth_middleware, me_route}
use shelf_auth.Platform.{Platform, EntityId, Duration, Time}
use shelf_auth.Http.{Response, profile, Request}
use shelf_auth.Tokens.{TokenVerifier, AccessClaims}
use shelf_auth.Keys.Tokens.{TokenLibrary, token_verifier, sign_access}
use shelf_auth.Service.Me.{me}
use shelf_auth.Keys.Tokens.Laws.{TokenLaws, in_seconds}
use shelf_auth.Repo.Users.{find_by_id}
use shelf_auth.Errors.{ok}
use shelf_auth.Keys.Signing.{Signer, key_with}
use shelf_auth.Keys.Tokens.RoundTrip.{verify_signed}

-- The answer for an account: what it stores, but for the time of its creation.
abbrev pub account_shown : UserRow → Response
account_shown row = record {
  status = 200;
  body = profile row.id (trim_space row.email) row.email_verified 0;
  cookie = none;
}

me_handler_known :
    (p : Platform) (id : EntityId) (row : UserRow) (w : World)
    → is_zero id ≡ false
    → find (λ u. u.id == id) w.db.users ≡ some row
    → parse_email p row.email ≡ ok (record { value = trim_space row.email })
    → p.fault w.tick ≡ none
    → (me_handler p (some id) w).0 ≡ account_shown row
unfolding me_handler me_reply me find_by_id statement ◌>>=◌
me_handler_known p id row w valid listed address answers = ground arith

parse_id-uuid_text :
    (p : Platform) (id : EntityId)
    → p.parse_uuid (p.uuid_text id) ≡ some id
    → parse_id p (p.uuid_text id) ≡ ok id
unfolding parse_id
parse_id-uuid_text p id h = rw (parse_id, h) refl

-- A request with a bearer token that the verifier accepts, for claims whose user id parses.
admitted :
    (p : Platform) (verifier : TokenVerifier) (r : Request) (token : String) (claims : AccessClaims)
    (id : EntityId) (v v' : World)
    → r.header "Authorization" ≡ append "Bearer " token
    → verifier.verify_access token v ≡ (ok claims, v')
    → parse_id p claims.user_id ≡ ok id
    → me_route p verifier r v ≡ me_handler p (some id) v'
unfolding auth_middleware append me_handler
admitted p verifier r token claims id v v' sent accepted parsed =
    rw (sent, trim_prefix-append "Bearer " token, accepted, parsed) refl

-- An account that GET /me can show for an id, at a world: its id is not nil and its text parses
-- back, its row is stored, the row's address parses, and the database answers the query.
pub record IsShowable (p : Platform) (id : EntityId) (row : UserRow) (v : World) : Type 0 where
  pub valid : is_zero id ≡ false
  pub named : is_empty (p.uuid_text id) ≡ false
  pub parses : p.parse_uuid (p.uuid_text id) ≡ some id
  pub stored : find (λ u. u.id == id) v.db.users ≡ some row
  pub address : parse_email p row.email ≡ ok (record { value = trim_space row.email })
  pub answers : p.fault (suc (suc v.tick)) ≡ none

-- A signer that verifies what another one signs: the other's algorithm is RS256, and its key is
-- held here too under its kid, with the same issuer and audience.
pub record IsTrusting (verifying signing : Signer) : Type 0 where
  pub alg : signing.alg ≡ "RS256"
  pub kept : key_with signing.kid verifying.keys ≡ key_with signing.kid signing.keys
  pub issuer : verifying.issuer ≡ signing.issuer
  pub audience : verifying.audience ≡ signing.audience

-- A verification between the signing, which is after the Unix epoch, and the token's end in whole seconds, on
-- a clock that does not run backwards there.
pub record IsInTime (p : Platform) (lib : TokenLibrary) (signed_at verified_at : ℕ) (exp : Time)
    : Type 0 where
  pub after : p.clock signed_at ≤ p.clock verified_at
  pub forward : p.clock verified_at ≤ p.clock (suc verified_at)
  pub before : p.clock (suc verified_at) < in_seconds exp
  pub dated : lib.dates (in_seconds (p.clock signed_at)) ≡ true

-- A token that was signed for an account's id opens the account.
pub signed_opens_account :
    (p : Platform) (lib : TokenLibrary) (laws : TokenLaws lib) (signing verifying : Signer)
    (email : String) (id : EntityId) (row : UserRow) (ttl : Duration) (w v : World) (token : String)
    (exp : Time) (r : Request)
    → (sign_access p lib signing (record { user_id = p.uuid_text id; email = email }) ttl w).0
      ≡ ok (token, exp)
    → IsTrusting verifying signing
    → IsInTime p lib w.tick v.tick exp
    → IsShowable p id row v
    → r.header "Authorization" ≡ append "Bearer " token
    → (me_route p (token_verifier p lib verifying) r v).0 ≡ account_shown row
signed_opens_account p lib laws signing verifying email id row ttl w v token exp r made trusting
      timely shown sent =
    let claims : AccessClaims = record { user_id = p.uuid_text id; email = email } in
    let after = timely.after in
    let forward = timely.forward in
    let before = timely.before in
    let verified =
      verify_signed p lib laws signing verifying claims ttl w v token exp trusting.alg shown.named
        made trusting.kept trusting.issuer trusting.audience after (omega arith) (omega arith)
        before timely.dated in
    ap (λ x. x.0)
      (admitted p (token_verifier p lib verifying) r token claims id v (next (next v)) sent verified
        (parse_id-uuid_text p id shown.parses))
    ∙ me_handler_known p id row (next (next v)) shown.valid shown.stored shown.address shown.answers
