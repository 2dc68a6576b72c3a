-- ===== src/Service/Refresh/Token.antt =====
-- The access token that a refresh returns (internal/service/refresh.go).
use shelf_auth.Prelude.{some, String_eq, ℕ_eq, String, ◌≡◌, ◌∙◌, ap, arith, subst}
use shelf_auth.Exec.{random, relabel, lift, fresh, statement, now, pure, World, next}
use shelf_auth.Service.Refresh.{rotate_session, refresh, find_session, RefreshResult}
use shelf_auth.Repo.Sessions.{find_by_hash, by_hash}
use shelf_auth.Platform.{Platform, Time}
use shelf_auth.Service.Config.{AuthService}
use shelf_auth.Domain.{Session}
use shelf_auth.Tokens.{SignerLaws}
use shelf_auth.Errors.{ok, ok-injective}
use shelf_auth.Exec.Inversion.{bind-eq-ok}
use shelf_auth.Security.Token.{hash_sha256_hex}
use shelf_auth.Service.Refresh.Rotation.{refresh_found-eq-ok}

rotate_session-signs :
    (p : Platform) (s : AuthService) (sess : Session) (at : Time) (device_id ip user_agent : String)
    (w : World) (r : RefreshResult)
    → (rotate_session p s sess at device_id ip user_agent w).0 ≡ ok r
    → (s.signer.sign_access
        (record { user_id = p.uuid_text sess.user_id; email = "" })
        s.access_ttl
        w).0
      ≡ ok (r.access_token, r.access_exp)
unfolding rotate_session random lift fresh pure
rotate_session-signs p s sess at device_id ip user_agent w r h =
    let sign = bind-eq-ok _ _ w h in
    let raw = bind-eq-ok _ _ _ sign.rest in
    let addr = bind-eq-ok _ _ _ raw.rest in
    let jti = bind-eq-ok _ _ _ addr.rest in
    let rot = bind-eq-ok _ _ _ jti.rest in
    sign.first ∙ ap (λ x. ok (x.access_token, x.access_exp)) (ok-injective rot.rest)

find_session-listed :
    (p : Platform) (hash : String) (w : World) (sess : Session) {found : Session}
    → (find_session p hash w).0 ≡ ok found
    → by_hash hash w.db.sessions ≡ some sess
    → (found ≡ sess) × ((find_session p hash w).1 ≡ next w)
unfolding find_by_hash relabel statement
find_session-listed p hash w sess h listed = (ground arith, ground arith)

-- What a refresh that succeeds has signed: the user id of the session that it found.
pub refresh-signs :
    (p : Platform) (s : AuthService) (laws : SignerLaws s.signer)
    (raw device_id ip user_agent : String) (w : World) (sess : Session) (r : RefreshResult)
    → (refresh p s raw device_id ip user_agent w).0 ≡ ok r
    → by_hash (hash_sha256_hex p raw) w.db.sessions ≡ some sess
    → (s.signer.sign_access
        (record { user_id = p.uuid_text sess.user_id; email = "" })
        s.access_ttl
        (next (next w))).0
      ≡ ok (r.access_token, r.access_exp)
unfolding refresh lift now
refresh-signs p s laws raw device_id ip user_agent w sess r h listed =
    let given = bind-eq-ok _ _ w h in
    let found = bind-eq-ok _ _ w given.rest in
    let clock = bind-eq-ok _ _ _ found.rest in
    let (same, world) = find_session-listed p (hash_sha256_hex p raw) w sess found.first listed in
    let (usable, run) =
      refresh_found-eq-ok p s laws device_id ip user_agent found.value clock.value _ clock.rest in
    let signed =
      rotate_session-signs p s found.value clock.value device_id ip user_agent _ r
        (rw run at clock.rest) in
    subst
      (λ x.
        (s.signer.sign_access (record { user_id = p.uuid_text x.user_id; email = "" }) s.access_ttl
          (next (next w))).0
        ≡ ok (r.access_token, r.access_exp))
      same
      (subst
        (λ v.
          (s.signer.sign_access (record { user_id = p.uuid_text found.value.user_id; email = "" })
            s.access_ttl (next v)).0
          ≡ ok (r.access_token, r.access_exp))
        world signed)
