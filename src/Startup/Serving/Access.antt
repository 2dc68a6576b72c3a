-- ===== src/Startup/Serving/Access.antt =====
-- GET /me in a running process (cmd/shelf-auth/main.go), with the token of a login or of a refresh.
use shelf_auth.Prelude.{
  some, String_eq, ℕ_eq, ◌≡◌, List, String, find, trim_space, suc, append, ap, sym, ◌∙◌,
}
use shelf_auth.Platform.{Platform}
use shelf_auth.Startup.{Libraries, Surroundings, Program, start}
use shelf_auth.Keys.Tokens.Laws.{TokenLaws}
use shelf_auth.Errors.{ok}
use shelf_auth.Startup.Serving.{MainEvent, run_process, launch}
use shelf_auth.Keys.Signing.{key_with, Signer}
use shelf_auth.Exec.{World, UserRow}
use shelf_auth.Domain.{Session}
use shelf_auth.Service.Login.{LoginResult, login, authenticate}
use shelf_auth.Service.Refresh.{RefreshResult, refresh}
use shelf_auth.Http.{Request}
use shelf_auth.Repo.Sessions.{by_hash}
use shelf_auth.Repo.Users.{has_email}
use shelf_auth.Security.Token.{hash_sha256_hex}
use shelf_auth.Http.Auth.Account.{IsInTime, IsShowable, account_shown}
use shelf_auth.Http.Auth.{me_route}
use shelf_auth.Keys.Tokens.{token_verifier}
use shelf_auth.Startup.Serving.Keys.{run-IsRenewed}
use shelf_auth.Startup.Account.{login_opens_account, refresh_opens_account}

module _ (p : Platform) (libs : Libraries) (laws : TokenLaws libs.tokens) (e : Surroundings)
    (prog : Program) (starts : start p libs e ≡ ok prog) (es : List MainEvent)
    (kept : key_with prog.signer.kid
        (run_process p libs prog.pool es (launch p libs prog)).signer.keys
      ≡ key_with prog.signer.kid prog.signer.keys) where
  -- The signer of the process after the events.
  abbrev pub signer_now : Signer
  signer_now = (run_process p libs prog.pool es (launch p libs prog)).signer

  -- In a program that has started: after a login, and whatever happens to the process that leaves the key of
  -- the signing kid as it was, a request to /me with the login's access token as a bearer token, which is
  -- verified with the keys that the process then has, is answered with 200 and the id, address and
  -- verification of the account of the login's address. The signing is after the Unix epoch, and the clock does not run backwards during the
  -- verification, which is after the signing and before the token's end in whole seconds; the account is
  -- still stored, its address parses, its id is not nil and its text parses back, and the database answers. The
  -- token library signs, parses and validates as documented.
  pub login_served :
      (email_raw password device_id ip user_agent : String) (w v : World) (row : UserRow)
      (res : LoginResult) (r : Request)
      → (login p prog.server.service email_raw password device_id ip user_agent w).0 ≡ ok res
      → find (has_email p (trim_space email_raw)) w.db.users ≡ some row
      → IsInTime p libs.tokens
          (authenticate p prog.server.service email_raw password w).1.tick
          v.tick
          res.access_exp
      → IsShowable p row.id row v
      → r.header "Authorization" ≡ append "Bearer " res.access_token
      → (me_route p (token_verifier p libs.tokens signer_now) r v).0 ≡ account_shown row
  login_served email_raw password device_id ip user_agent w v row res r logs_in account timely shown
        sent =
      let renewed = run-IsRenewed p libs prog.pool es (launch p libs prog) in
      let same = renewed.signer in
      rw same (
        login_opens_account p libs laws e prog starts renewed.listings
          (ap (λ x. key_with prog.signer.kid x.keys) (sym same) ∙ kept) email_raw password device_id
          ip user_agent w v row res r logs_in account timely shown sent)

  -- In a program that has started: after a refresh, and whatever happens to the process that leaves the key
  -- of the signing kid as it was, a request to /me with the refresh's access token as a bearer token, which
  -- is verified with the keys that the process then has, is answered with 200 and the id, address and
  -- verification of the account that owns the session of the token that was exchanged, though the
  -- access token holds no address. The signing is after the Unix epoch, and the clock does not run backwards during the verification, which is after
  -- the signing and before the token's end in whole seconds; the account is stored, its address parses,
  -- its id is not nil and its text parses back, and the database answers. The token library signs,
  -- parses and validates as documented.
  pub refresh_served :
      (raw device_id ip user_agent : String) (w v : World) (sess : Session) (row : UserRow)
      (res : RefreshResult) (r : Request)
      → (refresh p prog.server.service raw device_id ip user_agent w).0 ≡ ok res
      → by_hash (hash_sha256_hex p raw) w.db.sessions ≡ some sess
      → IsInTime p libs.tokens (suc (suc w.tick)) v.tick res.access_exp
      → IsShowable p sess.user_id row v
      → r.header "Authorization" ≡ append "Bearer " res.access_token
      → (me_route p (token_verifier p libs.tokens signer_now) r v).0 ≡ account_shown row
  refresh_served raw device_id ip user_agent w v sess row res r refreshes listed timely shown sent =
      let renewed = run-IsRenewed p libs prog.pool es (launch p libs prog) in
      let same = renewed.signer in
      rw same (
        refresh_opens_account p libs laws e prog starts renewed.listings
          (ap (λ x. key_with prog.signer.kid x.keys) (sym same) ∙ kept) raw device_id ip user_agent
          w v sess row res r refreshes listed timely shown sent)
