-- ===== src/Service/Refresh/Reuse.antt =====
-- Refresh tokens that are presented again after an exchange (internal/service/refresh.go).
use shelf_auth.Platform.{EntityId, Platform, Time}
use shelf_auth.Prelude.{
  String, Bool, List, ◌==◌, All, ◌≡◌, ◌&&◌, true, ℕ_eq, is_some, String_eq, update, some, none, ◌∷◌,
  suc, arith, ◌≤◌, [], refl, false, changed, ◌++◌, eq_of_some, sym, ◌∙◌, ap, not, ◌||◌,
  if◌then◌else◌, map, ap₂,
}
use shelf_auth.Service.Config.{AuthService}
use shelf_auth.Domain.{Session, non_empty}
use shelf_auth.Exec.{World, statement, ◌>>=◌, Db}
use shelf_auth.Service.Refresh.{refresh, refresh_found, reject_reuse, RefreshResult}
use shelf_auth.Repo.Sessions.{
  by_hash, find_by_hash, is_live_on, set_revoked, revoke_all_by_user_and_device, update_rows,
  set_replaced,
}
use shelf_auth.Security.Token.{hash_sha256_hex}
use shelf_auth.Errors.{err, sentinel, reused_refresh, ok}
use shelf_auth.Tokens.{SignerLaws}
use shelf_auth.Service.Refresh.Rotation.{RotatedTo, refresh-eq-ok}
use shelf_auth.Repo.Searches.{by_hash-update, by_hash-append_new, by_hash-Evolves}
use shelf_auth.Service.History.{refresh-Preserves}

abbrev pub is_on : EntityId → String → Session → Bool
is_on user_id device_id t = t.user_id == user_id && t.device_id == device_id

All-on_revoked :
    (user_id : EntityId) (device_id : String) (at : Time) (xs : List Session)
    → All
        (λ t. (not (is_on user_id device_id t) || is_some t.revoked_at) ≡ true)
        (update (is_live_on user_id device_id) (set_revoked at) xs)
All-on_revoked user_id device_id at [] = tt
All-on_revoked user_id device_id at (x ∷ xs) =
    (ground arith, All-on_revoked user_id device_id at xs)

-- A session after a replay at a time, for a user and a device.
abbrev pub ended_at : EntityId → String → Time → Session → Session
ended_at user_id device_id at t =
    if is_on user_id device_id t && not (is_some t.revoked_at)
    then record t { revoked_at = some at }
    else t

ended-is_live :
    (user_id : EntityId) (device_id : String) (at : Time) (t : Session)
    → changed (is_live_on user_id device_id) (set_revoked at) t ≡ ended_at user_id device_id at t
ended-is_live user_id device_id at t = ground arith

update-ended :
    (user_id : EntityId) (device_id : String) (at : Time) (xs : List Session)
    → update (is_live_on user_id device_id) (set_revoked at) xs
      ≡ map (ended_at user_id device_id at) xs
update-ended user_id device_id at [] = refl
update-ended user_id device_id at (x ∷ xs) =
    ap₂ (λ y ys. y ∷ ys) (ended-is_live user_id device_id at x)
      (update-ended user_id device_id at xs)

module _ (p : Platform) (s : AuthService) (raw device_id ip user_agent : String) (w : World)
    (sess : Session) where
  -- The premises of a replay: the token's session was found, it was rotated, it is not revoked or
  -- past its end, and the database answers both statements.
  pub record IsReplay : Type 0 where
    pub given : non_empty raw ≡ true
    pub found : by_hash (hash_sha256_hex p raw) w.db.sessions ≡ some sess
    pub unrevoked : sess.revoked_at ≡ none
    pub in_time : p.clock (suc w.tick) ≤ sess.expires_at
    pub replaced : is_some sess.replaced_by ≡ true
    pub answers : p.fault w.tick ≡ none
    pub answers_again : p.fault (suc (suc w.tick)) ≡ none

  refresh_of_replay :
      IsReplay
      → refresh p s raw device_id ip user_agent w ≡ (
        err (sentinel reused_refresh),
        record {
          db = record w.db {
            sessions =
                update
                  (is_live_on sess.user_id sess.device_id)
                  (set_revoked (p.clock (suc w.tick)))
                  w.db.sessions;
          };
          tick = suc (suc (suc w.tick));
        },
      )
  unfolding refresh refresh_found reject_reuse find_by_hash statement ◌>>=◌
      revoke_all_by_user_and_device update_rows
  refresh_of_replay v =
      ground
        (arith, v.given, v.found, v.unrevoked, v.in_time, v.replaced, v.answers, v.answers_again)

  -- When a rotated token is presented again, and it is not revoked or past its end and the
  -- database answers: the refresh fails with ErrReusedRefresh, afterwards every session of the
  -- token's user and device is revoked, and the sessions of that user and device that were not revoked
  -- before are now, from the time on the clock after the search; nothing else of the tables has
  -- changed.
  pub reuse_revokes :
      IsReplay
      → ((refresh p s raw device_id ip user_agent w).0 ≡ err (sentinel reused_refresh))
        × All
            (λ t. (not (is_on sess.user_id sess.device_id t) || is_some t.revoked_at) ≡ true)
            (refresh p s raw device_id ip user_agent w).1.db.sessions
        × ((refresh p s raw device_id ip user_agent w).1.db ≡ record w.db {
          sessions =
              map (ended_at sess.user_id sess.device_id (p.clock (suc w.tick))) w.db.sessions;
        })
  reuse_revokes v = rw (refresh_of_replay v) (
    refl,
    All-on_revoked sess.user_id sess.device_id (p.clock (suc w.tick)) w.db.sessions,
    ap (λ x. record w.db { sessions = x })
        (update-ended sess.user_id sess.device_id (p.clock (suc w.tick)) w.db.sessions),
  )

-- The new token's session, right after the rotation.
found_after :
    (p : Platform) (s : AuthService) (old : Session) (at : Time) (device_id : String)
    (r : RefreshResult) (before after : Db) (m : RotatedTo p s old at device_id r before after)
    → by_hash (hash_sha256_hex p r.refresh_token) before.sessions ≡ none
    → by_hash (hash_sha256_hex p r.refresh_token) after.sessions
      ≡ some (changed (λ t. t.jti == old.jti) (set_replaced m.link_id) m.row)
found_after p s old at device_id r before after m absent = rw m.sessions (
    by_hash-update (hash_sha256_hex p r.refresh_token) (λ t. t.jti == old.jti)
      (set_replaced m.link_id) (before.sessions ++ m.row ∷ []) (λ t. ground arith)
      (by_hash-append_new _ before.sessions m.row absent m.successor.hash))

-- What the replay does to it, if it is on another device.
survives :
    (old sess : Session) (at : Time) (id : EntityId) (t : Session)
    → t.revoked_at ≡ none
    → (t.device_id == old.device_id) ≡ false
    → sess.device_id ≡ old.device_id
    → (changed
        (is_live_on sess.user_id sess.device_id)
        (set_revoked at)
        (changed (λ u. u.jti == old.jti) (set_replaced id) t)).revoked_at
      ≡ none
survives old sess at id t unset other same = rw same (ground arith)

module _ (p : Platform) (s : AuthService) (laws : SignerLaws s.signer)
    (raw device_id ip user_agent : String) (w : World) (r : RefreshResult) where
  abbrev exchanged : World
  exchanged = (refresh p s raw device_id ip user_agent w).1

  -- A refresh that names another device than the token's session, and then a replay of the old
  -- token, whose hash is not that of an earlier session: the replay is detected, and still the
  -- session of the token that the refresh gave out is not revoked. The signer is one that leaves
  -- the database alone.
  pub replay_misses_other_device :
      (old sess : Session) (device_id' ip' user_agent' : String)
      → (refresh p s raw device_id ip user_agent w).0 ≡ ok r
      → by_hash (hash_sha256_hex p raw) w.db.sessions ≡ some old
      → (device_id == old.device_id) ≡ false
      → by_hash (hash_sha256_hex p r.refresh_token) w.db.sessions ≡ none
      → IsReplay p s raw device_id' ip' user_agent' exchanged sess
      → ((refresh p s raw device_id' ip' user_agent' exchanged).0 ≡ err (sentinel reused_refresh))
        × ((t : Session) × (by_hash
                (hash_sha256_hex p r.refresh_token)
                (refresh p s raw device_id' ip' user_agent' exchanged).1.db.sessions
              ≡ some t)
            × (t.revoked_at ≡ none))
  replay_misses_other_device old sess device_id' ip' user_agent' h listed other absent v =
      let (old', found, usable, m) = refresh-eq-ok p s laws device_id ip user_agent raw w h in
      let same : old' ≡ old = eq_of_some (sym found ∙ listed) in
      let replay =
        ap (λ x. x.1.db) (refresh_of_replay p s raw device_id' ip' user_agent' exchanged sess v) in
      let (t, there, ages) =
        by_hash-Evolves _ _ _
          ((refresh-Preserves p s laws raw device_id ip user_agent).at w).evolves listed in
      let new = found_after p s old' _ device_id r w.db exchanged.db m absent in
      (
        (reuse_revokes p s raw device_id' ip' user_agent' exchanged sess v).0,
        (
          changed (is_live_on sess.user_id sess.device_id)
              (set_revoked (p.clock (suc exchanged.tick)))
              (changed (λ u. u.jti == old'.jti) (set_replaced m.link_id) m.row),
          rw replay (
              by_hash-update (hash_sha256_hex p r.refresh_token)
                (is_live_on sess.user_id sess.device_id)
                (set_revoked (p.clock (suc exchanged.tick))) exchanged.db.sessions
                (λ t. ground arith) new),
          survives old' sess (p.clock (suc exchanged.tick)) m.link_id m.row m.successor.unrevoked
              (rw (m.successor.device, same) other)
              (ap (λ x. x.device_id) (eq_of_some (sym v.found ∙ there))
                ∙ ages.same_device
                ∙ ap (λ x. x.device_id) (sym same)),
        ),
      )
