-- ===== src/Startup/Account.antt =====
-- A program that has started (cmd/shelf-auth/main.go), and GET /me with the access
-- token of a login or of a refresh.
use shelf_auth.Prelude.{
  none, some, ◌∷◌, [], String_eq, ℕ_eq, refl, Option, List, ◌≡◌, String, ◌∙◌, find, trim_space, suc,
  append, subst, sym,
}
use shelf_auth.Keys.Signing.{reload, auto_reload, Signer, key_with}
use shelf_auth.Platform.{Platform, Time}
use shelf_auth.Keys.{KeyLibrary, Entry}
use shelf_auth.Startup.{Libraries, Surroundings, Program, start}
use shelf_auth.Keys.Tokens.Laws.{TokenLaws}
use shelf_auth.Exec.{World, UserRow, next}
use shelf_auth.Service.Login.{LoginResult, login, authenticate}
use shelf_auth.Http.{Request}
use shelf_auth.Errors.{ok, Result}
use shelf_auth.Repo.Users.{has_email}
use shelf_auth.Domain.{Session}
use shelf_auth.Http.Auth.{me_route}
use shelf_auth.Keys.Tokens.{token_verifier, sign_access}
use shelf_auth.Http.Auth.Account.{
  account_shown, IsTrusting, IsInTime, IsShowable, signed_opens_account,
}
use shelf_auth.Startup.Wired.{start-eq-ok}
use shelf_auth.Tokens.{AccessClaims, SignerLaws}
use shelf_auth.Service.Refresh.{RefreshResult, refresh}
use shelf_auth.Service.Login.Token.{login-signs}
use shelf_auth.Repo.Sessions.{by_hash}
use shelf_auth.Security.Token.{hash_sha256_hex}
use shelf_auth.Keys.Tokens.RoundTrip.{token_signer-SignerLaws}
use shelf_auth.Service.Refresh.Token.{refresh-signs}

reload-parts :
    (lib : KeyLibrary) (listing : Option (List Entry)) (s : Signer)
    → ((reload lib listing s).1.issuer ≡ s.issuer)
      × ((reload lib listing s).1.audience ≡ s.audience)
unfolding reload
reload-parts lib none s = (refl, refl)
reload-parts lib (some files) s = (refl, refl)

auto_reload-parts :
    (lib : KeyLibrary) (ticks : List (Option (List Entry))) (s : Signer)
    → ((auto_reload lib ticks s).issuer ≡ s.issuer)
      × ((auto_reload lib ticks s).audience ≡ s.audience)
unfolding auto_reload
auto_reload-parts lib [] s = (refl, refl)
auto_reload-parts lib (listing ∷ ticks) s =
    let (issuer, audience) = auto_reload-parts lib ticks (reload lib listing s).1 in
    let (same_issuer, same_audience) = reload-parts lib listing s in
    (issuer ∙ same_issuer, audience ∙ same_audience)

module _ (p : Platform) (libs : Libraries) (laws : TokenLaws libs.tokens) (e : Surroundings)
    (prog : Program) (starts : start p libs e ≡ ok prog) (ticks : List (Option (List Entry)))
    (kept : key_with prog.signer.kid (auto_reload libs.keys ticks prog.signer).keys
      ≡ key_with prog.signer.kid prog.signer.keys) where
  reloaded-IsTrusting : IsTrusting (auto_reload libs.keys ticks prog.signer) prog.signer
  reloaded-IsTrusting =
      let (issuer, audience) = auto_reload-parts libs.keys ticks prog.signer in
      record {
        alg = (start-eq-ok p libs e prog starts).alg;
        kept = kept;
        issuer = issuer;
        audience = audience;
      }

  made_by_signer :
      (c : AccessClaims) (w : World) {res : Result (String × Time)}
      → (prog.server.service.signer.sign_access c prog.server.service.access_ttl w).0 ≡ res
      → (sign_access p libs.tokens prog.signer c prog.server.service.access_ttl w).0 ≡ res
  made_by_signer c w {res} signed =
      subst (λ x. (x.sign_access c prog.server.service.access_ttl w).0 ≡ res)
        (start-eq-ok p libs e prog starts).signs signed

  -- In a program that has started: after a login, and then any reloads of the keys that leave the key of
  -- the signing kid as it was, a request to /me with the login's access token as a bearer token is
  -- answered with 200 and the id, address and verification of the account of the login's address.
  -- The signing is after the Unix epoch, and the clock does not run backwards during the verification, which is after the signing and before the
  -- token's end in whole seconds; the account is still stored, its address parses, its id is not nil and its
  -- text parses back, and the database answers. The token library signs, parses and validates as documented.
  pub login_opens_account :
      (email_raw password device_id ip user_agent : String) (w v : World) (row : UserRow)
      (res : LoginResult) (r : Request)
      → (login p prog.server.service email_raw password device_id ip user_agent w).0 ≡ ok res
      → find (has_email p (trim_space email_raw)) w.db.users ≡ some row
      → IsInTime p libs.tokens
          (authenticate p prog.server.service email_raw password w).1.tick
          v.tick
          res.access_exp
      → IsShowable p row.id row v
      → r.header "Authorization" ≡ append "Bearer " res.access_token
      → (me_route p (token_verifier p libs.tokens (auto_reload libs.keys ticks prog.signer)) r v).0
        ≡ account_shown row
  login_opens_account email_raw password device_id ip user_agent w v row res r logs_in account
        timely shown sent =
      let w1 = (authenticate p prog.server.service email_raw password w).1 in
      let signed =
        login-signs p prog.server.service email_raw password device_id ip user_agent w row res
          logs_in account in
      signed_opens_account p libs.tokens laws prog.signer (auto_reload libs.keys ticks prog.signer)
        (trim_space row.email) row.id row prog.server.service.access_ttl w1 v res.access_token
        res.access_exp r (made_by_signer _ w1 signed) reloaded-IsTrusting timely shown sent

  -- In a program that has started: after a refresh, and then any reloads of the keys that leave the key of
  -- the signing kid as it was, a request to /me with the refresh's access token as a bearer token is
  -- answered with 200 and the id, address and verification of the account that owns the session of
  -- the token that was exchanged, though the access token holds no address. The signing is after the Unix epoch, and the clock
  -- does not run backwards during the verification, which is after the signing and before the token's end in whole
  -- seconds; the account is stored, its address parses, its id is not nil and its text parses back,
  -- and the database answers. The token library signs, parses and validates as documented.
  pub refresh_opens_account :
      (raw device_id ip user_agent : String) (w v : World) (sess : Session) (row : UserRow)
      (res : RefreshResult) (r : Request)
      → (refresh p prog.server.service raw device_id ip user_agent w).0 ≡ ok res
      → by_hash (hash_sha256_hex p raw) w.db.sessions ≡ some sess
      → IsInTime p libs.tokens (suc (suc w.tick)) v.tick res.access_exp
      → IsShowable p sess.user_id row v
      → r.header "Authorization" ≡ append "Bearer " res.access_token
      → (me_route p (token_verifier p libs.tokens (auto_reload libs.keys ticks prog.signer)) r v).0
        ≡ account_shown row
  refresh_opens_account raw device_id ip user_agent w v sess row res r refreshes listed timely shown
        sent =
      let w2 = next (next w) in
      let signs = (start-eq-ok p libs e prog starts).signs in
      let signer_laws =
        subst SignerLaws (sym signs) (token_signer-SignerLaws p libs.tokens prog.signer) in
      let signed =
        refresh-signs p prog.server.service signer_laws raw device_id ip user_agent w sess res
          refreshes listed in
      signed_opens_account p libs.tokens laws prog.signer (auto_reload libs.keys ticks prog.signer)
        "" sess.user_id row prog.server.service.access_ttl w2 v res.access_token res.access_exp r
        (made_by_signer _ w2 signed) reloaded-IsTrusting timely shown sent
