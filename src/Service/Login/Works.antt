-- ===== src/Service/Login/Works.antt =====
-- Logins (internal/service/logging.go) that succeed, because everything they call answers.
use shelf_auth.Prelude.{
  none, String_eq, ℕ_eq, refl, String, ℕ, ◌≤◌, any, Option, ◌==◌, suc, ◌≡◌, false, true, arith, ◌+◌,
  ap, ◌∙◌, Bool, List, find, some, ◌∷◌, [],
}
use shelf_auth.Exec.{
  ◌>>=◌, World, fresh, statement, random, lift, now, pure, next, UserRow, relabel,
}
use shelf_auth.Platform.{Platform, EntityId, Duration, Time, IpAddress}
use shelf_auth.Repo.Sessions.{create, insert_row, as_row}
use shelf_auth.Domain.{new_session, Session, User, is_zero, non_empty, parse_ip, nil_id}
use shelf_auth.Service.Config.{AuthService}
use shelf_auth.Service.Refresh.Works.{Works, no_same_instance, token_works}
use shelf_auth.Tokens.{SignerLaws, AccessClaims}
use shelf_auth.Service.Login.{issue, login, authenticate, LoginResult}
use shelf_auth.Errors.{ok, is_ok, ok-of_is_ok}
use shelf_auth.Security.Token.{generate_opaque_token, hash_sha256_hex}
use shelf_auth.Repo.History.{is_user}
use shelf_auth.Exec.Inversion.{bind-of_ok, bind-of_run}
use shelf_auth.Repo.Users.{find_by_email}
use shelf_auth.Service.Login.Success.{authenticate-eq-ok}

-- No session has an identifier or a JTI that is still to be generated, and generated JTIs and the hashes
-- of generated tokens are not blank.
pub record IsFresh (p : Platform) (w : World) : Type 0 where
  pub new_ids : (n : ℕ) → w.tick ≤ n → any (λ t. t.id == p.fresh_id n) w.db.sessions ≡ false
  pub new_jtis :
      (n : ℕ) (jti : String)
      → w.tick ≤ n
      → generate_opaque_token p 16 n ≡ ok jti
      → (any (λ t. t.jti == jti) w.db.sessions ≡ false) × (non_empty jti ≡ true)
  pub hashes :
      (n : ℕ) (raw : String)
      → generate_opaque_token p 32 n ≡ ok raw
      → non_empty (hash_sha256_hex p raw) ≡ true

is_user-of_found :
    (test : UserRow → Bool) (users : List UserRow) (row : UserRow)
    → find test users ≡ some row
    → is_user users row.id ≡ true
is_user-of_found test [] row h = absurd (ground arith)
is_user-of_found test (x ∷ users) row h = ground (arith, is_user-of_found test users row)

module _ (p : Platform) where
  create_works :
      (sess : Session) (w : World)
      → p.fault (suc w.tick) ≡ none
      → any (λ t. t.id == p.fresh_id w.tick) w.db.sessions ≡ false
      → any (λ t. t.jti == sess.jti) w.db.sessions ≡ false
      → is_user w.db.users sess.user_id ≡ true
      → (create p sess w).0 ≡ ok tt
  unfolding create insert_row fresh statement ◌>>=◌
  create_works sess w answers new_id new_jti known =
      ground (arith, no_same_instance (as_row sess (p.fresh_id w.tick)) w.db.sessions)

  new_session_works :
      (user_id : EntityId) (device_id jti hash ip user_agent : String) (ttl : Duration) (at : Time)
      (address : Option IpAddress)
      → is_zero user_id ≡ false
      → non_empty device_id ≡ true
      → non_empty jti ≡ true
      → non_empty hash ≡ true
      → parse_ip p ip ≡ ok address
      → new_session p user_id device_id jti hash ip user_agent ttl at
        ≡ ok (record {
          id = nil_id;
          user_id = user_id;
          device_id = device_id;
          jti = jti;
          refresh_hash = hash;
          ip = address;
          user_agent = user_agent;
          created_at = at;
          expires_at = at + ttl;
          replaced_by = none;
          revoked_at = none;
        })
  unfolding new_session
  new_session_works user_id device_id jti hash ip user_agent ttl at address valid device jti_given
        hash_given parsed =
      ground arith

module _ (p : Platform) (s : AuthService) (works : Works p s) (laws : SignerLaws s.signer) where
  issue_works :
      (u : User) (device_id ip user_agent : String) (w : World)
      → IsFresh p w
      → is_user w.db.users u.id ≡ true
      → is_zero u.id ≡ false
      → non_empty device_id ≡ true
      → is_ok (parse_ip p ip) ≡ true
      → (r : LoginResult) × ((issue p s u device_id ip user_agent w).0 ≡ ok r)
  unfolding issue random lift now pure
  issue_works u device_id ip user_agent w ready known valid device address =
      let claims : AccessClaims = record { user_id = p.uuid_text u.id; email = u.email.value } in
      let w1 = (s.signer.sign_access claims s.access_ttl w).1 in
      let ahead : w.tick ≤ w1.tick = works.ahead claims s.access_ttl w in
      let ((access, exp), signed) = ok-of_is_ok _ (works.signs claims s.access_ttl w) in
      let (raw, drawn) = token_works p s works 32 w1.tick in
      let (jti, drawn_jti) = token_works p s works 16 (suc w1.tick) in
      let (parsed, address_ok) = ok-of_is_ok _ address in
      let same = laws.keeps_db claims s.access_ttl w in
      let (new_jti, jti_given) = ready.new_jtis (suc w1.tick) jti (omega arith) drawn_jti in
      let w2 = next (next w1) in
      let at = p.clock w2.tick in
      let made =
        new_session_works p u.id device_id jti (hash_sha256_hex p raw) ip user_agent s.refresh_ttl
          at parsed valid device jti_given (ready.hashes w1.tick raw drawn) address_ok in
      let stored =
        create_works p _ (next w2) (works.answers _)
          (rw same (ready.new_ids (suc w2.tick) (omega arith))) (rw same new_jti) (rw same known) in
      (
        record {
          access_token = access;
          access_exp = exp;
          refresh_token = raw;
          refresh_exp = at + s.refresh_ttl;
        },
        ap (λ x. x.0) (bind-of_ok _ _ w _ signed)
            ∙ ap (λ x. x.0) (bind-of_ok _ _ w1 _ drawn)
            ∙ ap (λ x. x.0) (bind-of_ok _ _ (next w1) _ drawn_jti)
            ∙ ap (λ x. x.0) (bind-of_run _ _ w2 (next w2) at refl)
            ∙ ap (λ x. x.0) (bind-of_ok _ _ (next w2) _ made)
            ∙ ap (λ x. x.0) (bind-of_ok _ _ (next w2) _ stored),
      )

  authenticate-tick :
      (email_raw password : String) (w : World)
      → w.tick ≤ (authenticate p s email_raw password w).1.tick
  unfolding authenticate find_by_email relabel statement ◌>>=◌
  authenticate-tick email_raw password w = ground arith

  -- Where everything that the program calls works, and new identifiers are fresh: a login whose
  -- credentials are accepted, for a user with an identifier that is not nil, from a device that is not blank
  -- and an address that is empty or parses, succeeds.
  pub login_works :
      (email_raw password device_id ip user_agent : String) (w : World) (u : User)
      → (authenticate p s email_raw password w).0 ≡ ok u
      → IsFresh p w
      → is_zero u.id ≡ false
      → non_empty device_id ≡ true
      → is_ok (parse_ip p ip) ≡ true
      → (r : LoginResult) × ((login p s email_raw password device_id ip user_agent w).0 ≡ ok r)
  unfolding login
  login_works email_raw password device_id ip user_agent w u passed ready valid device address =
      let v = (authenticate p s email_raw password w).1 in
      let (row, account, same_id, same) = authenticate-eq-ok p s email_raw password w passed in
      let later = authenticate-tick email_raw password w in
      let ready' : IsFresh p v = record {
        new_ids = λ n h. rw same (ready.new_ids n (omega (arith, later, h)));
        new_jtis = λ n jti h drawn. rw same (ready.new_jtis n jti (omega (arith, later, h)) drawn);
        hashes = ready.hashes;
      } in
      let known : is_user v.db.users u.id ≡ true =
        rw (same, same_id) (is_user-of_found _ w.db.users row account.listed) in
      let (r, issued) = issue_works u device_id ip user_agent v ready' known valid device address in
      (r, ap (λ x. x.0) (bind-of_ok _ _ w u passed) ∙ issued)
