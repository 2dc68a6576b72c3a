-- ===== src/Service/Refresh/Rotation.antt =====
-- Successful calls of AuthService.Refresh (internal/service/refresh.go).
use shelf_auth.Prelude.{
  String, Option, ◌≡◌, none, ◌+◌, some, ◌≤◌, String_eq, any, arith, false, subst, refl, ◌∙◌, ap,
  sym, suc,
}
use shelf_auth.Platform.{Platform, Time, EntityId, IpAddress}
use shelf_auth.Domain.{Session}
use shelf_auth.Errors.{Result, ok, err, ok-injective}
use shelf_auth.Service.Config.{AuthService}
use shelf_auth.Service.Refresh.{
  hide_missing, RefreshResult, rotate_session, refresh_found, find_session, reject_reuse, refresh,
  successor,
}
use shelf_auth.Exec.{Db, relabel, World, random, lift, ◌>>=◌, fresh, pure, now, statement, next}
use shelf_auth.Repo.Sessions.{find_by_hash, missing_as_not_found, select_session, as_row, by_hash}
use shelf_auth.Tokens.{SignerLaws}
use shelf_auth.Security.Token.{hash_sha256_hex}
use shelf_auth.Exec.Inversion.{statement-eq-ok, bind-eq-ok}
use shelf_auth.Repo.History.{session_conflict}
use shelf_auth.Repo.Rotation.{rotated, rotate-eq-ok, Rotates}

-- The session that was issued for the new token.
pub record IsSuccessor (p : Platform) (s : AuthService) (old : Session) (at : Time)
    (device_id : String) (r : RefreshResult) (row : Session) : Type 0 where
  pub owner : row.user_id ≡ old.user_id
  pub device : row.device_id ≡ device_id
  pub hash : row.refresh_hash ≡ hash_sha256_hex p r.refresh_token
  pub start : row.created_at ≡ at
  pub end : row.expires_at ≡ at + s.refresh_ttl
  pub reported : r.refresh_exp ≡ row.expires_at
  pub unreplaced : row.replaced_by ≡ none
  pub unrevoked : row.revoked_at ≡ none

-- The tables after a rotation of `old`: the successor is added, and the rows of the old token
-- instance are linked to it.
pub record RotatedTo (p : Platform) (s : AuthService) (old : Session) (at : Time)
    (device_id : String) (r : RefreshResult) (before after : Db) : Type 0 where
  pub row : Session
  pub link_id : EntityId
  pub successor : IsSuccessor p s old at device_id r row
  pub named : p.parse_uuid row.jti ≡ some link_id
  pub fresh_row : any (λ t. session_conflict t row) before.sessions ≡ false
  pub users : after.users ≡ before.users
  pub sessions : after.sessions ≡ rotated old.jti link_id row before.sessions

-- A session that may be refreshed at a time.
pub record IsUsable (sess : Session) (at : Time) : Type 0 where
  pub unrevoked : sess.revoked_at ≡ none
  pub in_time : at ≤ sess.expires_at
  pub unreplaced : sess.replaced_by ≡ none

missing_as_not_found-eq-ok :
    (r : Result Session) {sess : Session}
    → hide_missing (missing_as_not_found r) ≡ ok sess
    → r ≡ ok sess
missing_as_not_found-eq-ok (ok t) h = h
missing_as_not_found-eq-ok (err e) h = absurd (ground arith)

select_session-eq-ok :
    (hash : String) (d d' : Db) {sess : Session}
    → select_session hash d ≡ ok (sess, d')
    → (by_hash hash d.sessions ≡ some sess) × (d' ≡ d)
select_session-eq-ok hash d d' h = (ground arith, ground arith)

RotatedTo-of_same :
    {p : Platform} {s : AuthService} {old : Session} {at : Time} {device_id : String}
    {r : RefreshResult} {d before after : Db}
    → d ≡ before
    → RotatedTo p s old at device_id r d after
    → RotatedTo p s old at device_id r before after
RotatedTo-of_same {p} {s} {old} {at} {device_id} {r} {after = after} e m =
    subst (λ d. RotatedTo p s old at device_id r d after) e m

module _ (p : Platform) where
  -- A session that was found stands in the table, which the search leaves alone.
  pub find_session-eq-ok :
      (hash : String) (w : World) {sess : Session}
      → (find_session p hash w).0 ≡ ok sess
      → (by_hash hash w.db.sessions ≡ some sess) × ((find_session p hash w).1.db ≡ w.db)
  unfolding find_by_hash relabel
  find_session-eq-ok hash w h =
      select_session-eq-ok hash w.db _
        (statement-eq-ok p (select_session hash) w (missing_as_not_found-eq-ok _ h))

  -- A search is one call.
  find_session-tick : (hash : String) (w : World) → (find_session p hash w).1.tick ≡ suc w.tick
  unfolding find_by_hash relabel statement
  find_session-tick hash w = ground arith

  module _ (s : AuthService) (laws : SignerLaws s.signer) (device_id ip user_agent : String) where
    RotatedTo-of_parts :
        (old : Session) (at : Time) (parsed : Option IpAddress) (jti : EntityId) (raw : String)
        (r : RefreshResult) (before signed after : Db)
        → signed ≡ before
        → raw ≡ r.refresh_token
        → r.refresh_exp ≡ at + s.refresh_ttl
        → Rotates p old.jti (successor p s old at device_id parsed user_agent jti raw) signed after
        → RotatedTo p s old at device_id r before after
    RotatedTo-of_parts old at parsed jti raw r before signed after e same reported m = record {
      row = as_row (successor p s old at device_id parsed user_agent jti raw) m.row_id;
      link_id = m.link_id;
      successor = record {
        owner = refl;
        device = refl;
        hash = ap (hash_sha256_hex p) same;
        start = refl;
        end = refl;
        reported = reported;
        unreplaced = refl;
        unrevoked = refl;
      };
      named = m.parsed;
      fresh_row = rw (← e) (m.unused);
      users = m.users ∙ ap (λ d. d.users) e;
      sessions =
          m.sessions
          ∙ ap
              (λ d.
                rotated old.jti m.link_id
                  (as_row (successor p s old at device_id parsed user_agent jti raw) m.row_id)
                  d.sessions)
              e;
    }

    pub rotate_session-eq-ok :
        (sess : Session) (at : Time) (w : World) {r : RefreshResult}
        → (rotate_session p s sess at device_id ip user_agent w).0 ≡ ok r
        → RotatedTo p s sess at device_id r w.db
            (rotate_session p s sess at device_id ip user_agent w).1.db
    unfolding rotate_session random lift fresh pure
    rotate_session-eq-ok sess at w {r} h =
        let sign = bind-eq-ok _ _ w h in
        let raw = bind-eq-ok _ _ _ sign.rest in
        let addr = bind-eq-ok _ _ _ raw.rest in
        let jti = bind-eq-ok _ _ _ addr.rest in
        let rot = bind-eq-ok _ _ _ jti.rest in
        let moved = rotate-eq-ok p sess.jti _ _ rot.first in
        let issued : RefreshResult = record {
          access_token = sign.value.0;
          access_exp = sign.value.1;
          refresh_token = raw.value;
          refresh_exp = at + s.refresh_ttl;
        } in
        let result : issued ≡ r = ok-injective rot.rest in
        rw (sign.whole, raw.whole, addr.whole, jti.whole, rot.whole)
          (RotatedTo-of_parts sess at addr.value jti.value raw.value r w.db _ _
            (laws.keeps_db _ _ w) (ap (λ x. x.refresh_token) result)
            (sym (ap (λ x. x.refresh_exp) result)) moved)

    pub refresh_found-eq-ok :
        (sess : Session) (at : Time) (w : World) {r : RefreshResult}
        → (refresh_found p s sess at device_id ip user_agent w).0 ≡ ok r
        → IsUsable sess at
          × (refresh_found p s sess at device_id ip user_agent w
              ≡ rotate_session p s sess at device_id ip user_agent w)
    unfolding refresh_found reject_reuse ◌>>=◌
    refresh_found-eq-ok sess at w h = (
      record { unrevoked = ground arith; in_time = ground arith; unreplaced = ground arith },
      ground arith,
    )

    -- A refresh that succeeds found the presented token's session, unrevoked, unreplaced and, at the time on
    -- the clock after the search, not past its end, and rotated it at that time: the new session starts
    -- then. The signer is one that leaves the database alone.
    pub refresh-eq-ok :
        (raw : String) (w : World) {r : RefreshResult}
        → (refresh p s raw device_id ip user_agent w).0 ≡ ok r
        → (old : Session) × (by_hash (hash_sha256_hex p raw) w.db.sessions ≡ some old)
          × IsUsable old (p.clock (suc w.tick))
          × RotatedTo p s old
              (p.clock (suc w.tick))
              device_id
              r
              w.db
              (refresh p s raw device_id ip user_agent w).1.db
    unfolding refresh lift now
    refresh-eq-ok raw w {r} h =
        let given = bind-eq-ok _ _ w h in
        let found = bind-eq-ok _ _ w given.rest in
        let clock = bind-eq-ok _ _ _ found.rest in
        let (listed, same) = find_session-eq-ok _ w found.first in
        let (usable, run) = refresh_found-eq-ok found.value clock.value _ clock.rest in
        let moved = rotate_session-eq-ok found.value clock.value _ (rw run at clock.rest) in
        let at : clock.value ≡ p.clock (suc w.tick) =
          sym (ok-injective clock.first)
          ∙ ap p.clock (find_session-tick (hash_sha256_hex p raw) w) in
        (
          found.value,
          listed,
          subst (IsUsable found.value) at usable,
          rw (given.whole, found.whole, clock.whole, run)
              (subst
                (λ x.
                  RotatedTo p s found.value x device_id r w.db
                    (rotate_session p s found.value clock.value device_id ip user_agent
                      (next (find_session p (hash_sha256_hex p raw) w).1)).1.db)
                at (RotatedTo-of_same same moved)),
        )
