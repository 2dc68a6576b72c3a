-- ===== src/Service/Refresh/Works.antt =====
-- Refreshes (internal/service/refresh.go) that succeed, because everything they call answers.
use shelf_auth.Prelude.{
  ℕ_eq, String_eq, none, some, List, ℕ, any, ◌≡◌, ◌≤◌, ◌==◌, is_some, false, true, ◌∷◌, arith, [],
  refl, String, suc, Option-cases, inl, inr, ◌+◌, ap, ◌∙◌,
}
use shelf_auth.Platform.{Platform, EntityId, Duration, Time}
use shelf_auth.Domain.{Session, parse_ip, non_empty}
use shelf_auth.Service.Config.{AuthService}
use shelf_auth.Exec.{World, fresh, statement, ◌>>=◌, random, lift, pure, next, relabel, now}
use shelf_auth.Repo.Sessions.{
  rotate, link, insert_row, same_instance, update_rows, as_row, find_by_hash, by_hash,
}
use shelf_auth.Repo.History.{is_user}
use shelf_auth.Tokens.{AccessClaims, SignerLaws}
use shelf_auth.Errors.{is_ok, ok, ok-of_is_ok, require, sentinel, missing_refresh}
use shelf_auth.Security.Token.{generate_opaque_token, hash_sha256_hex}
use shelf_auth.Service.Refresh.{
  rotate_session, RefreshResult, successor, refresh_found, refresh, find_session,
}
use shelf_auth.Security.Encoding.{url_encode}
use shelf_auth.Exec.Inversion.{bind-of_ok, bind-of_run}
use shelf_auth.Service.Refresh.Rotation.{IsUsable}

-- The program's surroundings, when they work: the database answers, random bytes come, generated
-- identifiers can be parsed back, and the signer signs.
pub record Works (p : Platform) (s : AuthService) : Type 0 where
  pub answers : (n : ℕ) → p.fault n ≡ none
  pub draws : (n size : ℕ) → is_some (p.entropy n size) ≡ true
  pub parses : (id : EntityId) → p.parse_uuid (p.uuid_text id) ≡ some id
  pub signs :
      (c : AccessClaims) (ttl : Duration) (w : World)
      → is_ok (s.signer.sign_access c ttl w).0 ≡ true
  pub ahead :
      (c : AccessClaims) (ttl : Duration) (w : World)
      → w.tick ≤ (s.signer.sign_access c ttl w).1.tick

-- No session has an identifier that is still to be generated, and the user exists.
pub record IsReady (p : Platform) (user_id : EntityId) (w : World) : Type 0 where
  pub new_ids : (n : ℕ) → w.tick ≤ n → any (λ t. t.id == p.fresh_id n) w.db.sessions ≡ false
  pub new_texts :
      (n : ℕ) → w.tick ≤ n → any (λ t. t.jti == p.uuid_text (p.fresh_id n)) w.db.sessions ≡ false
  pub known : is_user w.db.users user_id ≡ true

pub no_same_instance :
    (row : Session) (rows : List Session)
    → any (λ t. t.jti == row.jti) rows ≡ false
    → any (λ t. same_instance t row) rows ≡ false
no_same_instance row [] h = refl
no_same_instance row (x ∷ xs) h = ground (arith, no_same_instance row xs)

module _ (p : Platform) (s : AuthService) (works : Works p s) where
  rotate_works :
      (old : String) (row : Session) (id : EntityId) (w : World)
      → row.jti ≡ p.uuid_text id
      → any (λ t. t.id == p.fresh_id (suc w.tick)) w.db.sessions ≡ false
      → any (λ t. t.jti == row.jti) w.db.sessions ≡ false
      → is_user w.db.users row.user_id ≡ true
      → (rotate p old row w).0 ≡ ok tt
  unfolding rotate link insert_row update_rows fresh statement ◌>>=◌
  rotate_works old row id w named new_id new_text known = ground (
    arith,
    works.answers w.tick,
    works.answers (suc (suc w.tick)),
    works.answers (suc (suc (suc w.tick))),
    works.answers (suc (suc (suc (suc w.tick)))),
    no_same_instance (as_row row (p.fresh_id (suc w.tick))) w.db.sessions,
    works.parses id,
  )

  pub token_works : (size call : ℕ) → (t : String) × (generate_opaque_token p size call ≡ ok t)
  unfolding generate_opaque_token
  token_works size call = elim (Option-cases (p.entropy call size)) [
    | inl missing ↦ absurd (ground (arith, works.draws call size))
    | inr (b, drawn) ↦ (url_encode b, ground arith)
  ]

  -- A rotation for an address that is empty or parses.
  pub rotate_session_works :
      (laws : SignerLaws s.signer) (sess : Session) (at : Time) (device_id ip user_agent : String)
      (w : World)
      → is_ok (parse_ip p ip) ≡ true
      → IsReady p sess.user_id w
      → (r : RefreshResult) × ((rotate_session p s sess at device_id ip user_agent w).0 ≡ ok r)
  unfolding rotate_session random lift fresh pure
  rotate_session_works laws sess at device_id ip user_agent w address ready =
      let claims : AccessClaims = record { user_id = p.uuid_text sess.user_id; email = "" } in
      let w1 = (s.signer.sign_access claims s.access_ttl w).1 in
      let much_later : w.tick ≤ suc (suc (suc w1.tick)) =
        omega (arith, works.ahead claims s.access_ttl w) in
      let ((access, exp), signed) = ok-of_is_ok _ (works.signs claims s.access_ttl w) in
      let (raw, drawn) = token_works 32 w1.tick in
      let (parsed, valid) = ok-of_is_ok _ address in
      let same = laws.keeps_db claims s.access_ttl w in
      let id = p.fresh_id (suc w1.tick) in
      let w2 = next (next w1) in
      let stored =
        rotate_works sess.jti (successor p s sess at device_id parsed user_agent id raw) id w2 refl
          (rw same (ready.new_ids (suc (suc (suc w1.tick))) much_later))
          (rw same (ready.new_texts (suc w1.tick) (omega arith))) (rw same ready.known) in
      (
        record {
          access_token = access;
          access_exp = exp;
          refresh_token = raw;
          refresh_exp = at + s.refresh_ttl;
        },
        ap (λ x. x.0) (bind-of_ok _ _ w _ signed)
            ∙ ap (λ x. x.0) (bind-of_ok _ _ w1 _ drawn)
            ∙ ap (λ x. x.0) (bind-of_ok _ _ (next w1) _ valid)
            ∙ ap (λ x. x.0) (bind-of_ok _ _ (next w1) _ refl)
            ∙ ap (λ x. x.0) (bind-of_ok _ _ w2 _ stored),
      )

  pub find_session_works :
      (hash : String) (sess : Session) (w : World)
      → by_hash hash w.db.sessions ≡ some sess
      → find_session p hash w ≡ (ok sess, next w)
  unfolding find_by_hash relabel statement
  find_session_works hash sess w found = ground (arith, works.answers w.tick)

  pub usable_rotates :
      (sess : Session) (at : Time) (device_id ip user_agent : String) (w : World)
      → IsUsable sess at
      → refresh_found p s sess at device_id ip user_agent w
        ≡ rotate_session p s sess at device_id ip user_agent w
  unfolding refresh_found
  usable_rotates sess at device_id ip user_agent w u =
      ground (arith, u.unrevoked, u.in_time, u.unreplaced)

  -- Where everything that the program calls works and generated identifiers are new: a refresh with
  -- a token that is not blank, whose session is not revoked, not replaced and not past its end at
  -- the time that is read, from an address that is empty or parses, succeeds. The signer is one
  -- that leaves the database alone.
  pub refresh_works :
      (laws : SignerLaws s.signer) (raw : String) (sess : Session)
      (device_id ip user_agent : String) (w : World)
      → non_empty raw ≡ true
      → by_hash (hash_sha256_hex p raw) w.db.sessions ≡ some sess
      → IsUsable sess (p.clock (suc w.tick))
      → is_ok (parse_ip p ip) ≡ true
      → IsReady p sess.user_id w
      → (r : RefreshResult) × ((refresh p s raw device_id ip user_agent w).0 ≡ ok r)
  unfolding refresh lift now
  refresh_works laws raw sess device_id ip user_agent w given found usable address ready =
      let at = p.clock (suc w.tick) in
      let w2 = next (next w) in
      let ready2 : IsReady p sess.user_id w2 = record {
        new_ids = λ n h. ready.new_ids n (omega arith);
        new_texts = λ n h. ready.new_texts n (omega arith);
        known = ready.known;
      } in
      let (r, rotated) =
        rotate_session_works laws sess at device_id ip user_agent w2 address ready2 in
      let searched = find_session_works (hash_sha256_hex p raw) sess w found in
      (
        r,
        ap (λ x. x.0)
              (bind-of_run _ _ w w tt (ap (λ b. (require b (sentinel missing_refresh), w)) given))
            ∙ ap (λ x. x.0) (bind-of_run _ _ w (next w) sess searched)
            ∙ ap (λ x. x.0) (bind-of_run _ _ (next w) w2 at refl)
            ∙ ap (λ x. x.0) (usable_rotates sess at device_id ip user_agent w2 usable)
            ∙ rotated,
      )
