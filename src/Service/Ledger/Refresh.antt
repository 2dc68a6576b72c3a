-- ===== src/Service/Ledger/Refresh.antt =====
-- A refresh (internal/service/refresh.go) as an event of the ledger.
use shelf_auth.Prelude.{
  some, String_eq, ℕ_eq, refl, inl, inr, ◌≡◌, String, ap, ◌⊎◌, update, is_some, Option-cases, true,
  arith, false, Bool-cases, ltb, ◌∙◌, subst, sym, Bool,
}
use shelf_auth.Exec.{◌>>=◌, Db, raise, statement, World, lift, now, next}
use shelf_auth.Platform.{Platform, Time}
use shelf_auth.Service.Ledger.{
  Ledger, Event, Allows, apply, nothing, idle, withdrawn, withdraws, exchanged, exchanges, must_act,
}
use shelf_auth.Service.Calls.{Call, refresh_call}
use shelf_auth.Service.Config.{AuthService}
use shelf_auth.Tokens.{SignerLaws}
use shelf_auth.Service.Ledger.View.{view, grant_of, seen, view-rotated, view-withdraw}
use shelf_auth.Service.Refresh.{
  reject_reuse, refresh_found, rotate_session, refresh, find_session, hide_missing,
}
use shelf_auth.Domain.{Session, non_empty}
use shelf_auth.Repo.Sessions.{
  revoke_all_by_user_and_device, update_rows, by_hash, is_live_on, set_revoked,
}
use shelf_auth.Security.Token.{hash_sha256_hex}
use shelf_auth.Service.Refresh.Rotation.{IsUsable, rotate_session-eq-ok, find_session-eq-ok}
use shelf_auth.Errors.{Result-cases, Error, err, ok, require, sentinel, missing_refresh, is_ok}
use shelf_auth.Service.Atomic.{rotate_session-IsAtomic, find_by_hash-Reads}
use shelf_auth.Exec.Preserves.{relabel-Preserves}
use shelf_auth.Exec.Atomic.{Same-Preorder}
use shelf_auth.Exec.Inversion.{bind-of_run, bind-of_ok}

-- A call that changes the ledger by an event that it allows.
pub record IsMove (p : Platform) (l : Ledger) (c : Call) (done : Bool) (after : Ledger)
    : Type 0 where
  pub event : Event
  pub allowed : Allows p l c done event
  pub moved : after ≡ apply event l

pub IsMove-of_same :
    (p : Platform) (c : Call) (done : Bool) (a b : Db)
    → must_act c done ≡ false
    → b ≡ a
    → IsMove p (view a.sessions) c done (view b.sessions)
IsMove-of_same p c done a b silent same = record {
  event = nothing;
  allowed = idle c done silent;
  moved = ap (λ d. view d.sessions) same;
}

module _ (p : Platform) (s : AuthService) (laws : SignerLaws s.signer)
    (raw device_id ip user_agent : String) where
  pub reject_reuse-db :
      (sess : Session) (at : Time) (v : World)
      → ((reject_reuse p sess at v).1.db ≡ v.db)
        ⊎ ((reject_reuse p sess at v).1.db ≡ record v.db {
          sessions = update (is_live_on sess.user_id sess.device_id) (set_revoked at) v.db.sessions;
        })
  unfolding reject_reuse ◌>>=◌ revoke_all_by_user_and_device statement update_rows
  reject_reuse-db sess at v = elim (Option-cases (p.fault v.tick)) [
    | inl works ↦ inr (ground arith)
    | inr (why, fails) ↦ inl (ground arith)
  ]

  reject_reuse_fails :
      (sess : Session) (at : Time) (v : World) → is_ok (reject_reuse p sess at v).0 ≡ false
  unfolding reject_reuse ◌>>=◌
  reject_reuse_fails sess at v = ground arith

  -- The premises of the steps on a session that was found.
  abbrev IsRefreshMove : Session → Time → World → Type 0
  IsRefreshMove sess at v =
      IsMove p (view v.db.sessions) (refresh_call raw device_id ip user_agent)
        (is_ok (refresh_found p s sess at device_id ip user_agent v).0)
        (view (refresh_found p s sess at device_id ip user_agent v).1.db.sessions)

  rotation-IsMove :
      (sess : Session) (at : Time) (v : World)
      → by_hash (hash_sha256_hex p raw) v.db.sessions ≡ some sess
      → IsUsable sess at
      → IsMove p
          (view v.db.sessions)
          (refresh_call raw device_id ip user_agent)
          (is_ok (rotate_session p s sess at device_id ip user_agent v).0)
          (view (rotate_session p s sess at device_id ip user_agent v).1.db.sessions)
  rotation-IsMove sess at v found u =
      elim (Result-cases (rotate_session p s sess at device_id ip user_agent v).0) [
        | inl (e, failed) ↦ IsMove-of_same p _ _ v.db _ (ap is_ok failed) (
            (rotate_session-IsAtomic p s laws {P = λ e. Unit} sess at device_id ip user_agent).at v
              e tt failed)
        | inr (r, rotated_ok) ↦
            let m = rotate_session-eq-ok p s laws device_id ip user_agent sess at v rotated_ok in
            rw (ap is_ok rotated_ok) (record {
              event = exchanged (grant_of sess) m.row.refresh_hash (grant_of m.row);
              allowed =
                  exchanges raw device_id ip user_agent m.row.refresh_hash (grant_of sess)
                    (grant_of m.row) (ap seen found) (rw (u.unrevoked, u.unreplaced) refl)
                    (rw (m.successor.unrevoked, m.successor.unreplaced) refl) m.successor.owner
                    m.successor.device;
              moved = ap view m.sessions ∙ view-rotated sess m.row m.link_id v.db.sessions;
            })
      ]

  reuse-IsMove :
      (sess : Session) (at : Time) (v : World)
      → by_hash (hash_sha256_hex p raw) v.db.sessions ≡ some sess
      → is_some sess.replaced_by ≡ true
      → is_some sess.revoked_at ≡ false
      → IsMove p
          (view v.db.sessions)
          (refresh_call raw device_id ip user_agent)
          (is_ok (reject_reuse p sess at v).0)
          (view (reject_reuse p sess at v).1.db.sessions)
  reuse-IsMove sess at v found spent unrevoked = elim (reject_reuse-db sess at v) [
    | inl same ↦ IsMove-of_same p _ _ v.db _ (reject_reuse_fails sess at v) same
    | inr revokes ↦ rw (reject_reuse_fails sess at v) (record {
      event = withdrawn sess.user_id sess.device_id;
      allowed =
          withdraws raw device_id ip user_agent (grant_of sess) (ap seen found) spent unrevoked;
      moved =
          ap (λ d. view d.sessions) revokes
          ∙ view-withdraw sess.user_id sess.device_id at v.db.sessions;
    })
  ]

  refresh_found-IsMove :
      (sess : Session) (at : Time) (v : World)
      → by_hash (hash_sha256_hex p raw) v.db.sessions ≡ some sess
      → IsRefreshMove sess at v
  unfolding refresh_found raise rotate_session reject_reuse
  refresh_found-IsMove sess at v found = elim (Option-cases sess.revoked_at) [
    | inr (t, revoked) ↦ rw revoked (IsMove-of_same p _ _ v.db v.db refl refl)
    | inl live ↦ elim (Bool-cases (ltb sess.expires_at at)) [
      | inl late ↦ rw (live, late) (IsMove-of_same p _ _ v.db v.db refl refl)
      | inr in_time ↦ elim (Option-cases sess.replaced_by) [
        | inr (id, spent) ↦
            rw (live, in_time, spent) (reuse-IsMove sess at v found (ground arith) (ground arith))
        | inl unspent ↦
            rw (live, in_time, unspent)
              (rotation-IsMove sess at v found
                (record { unrevoked = live; in_time = ground arith; unreplaced = unspent }))
      ]
    ]
  ]

  -- A search that fails has left the tables alone.
  pub refresh_of_lost :
      (w : World) (e : Error)
      → (find_session p (hash_sha256_hex p raw) w).0 ≡ err e
      → (is_ok (refresh p s raw device_id ip user_agent w).0 ≡ false)
        × ((refresh p s raw device_id ip user_agent w).1.db ≡ w.db)
  unfolding refresh ◌>>=◌
  refresh_of_lost w e lost =
      let same =
        (relabel-Preserves Same-Preorder hide_missing _
            (find_by_hash-Reads p (hash_sha256_hex p raw))).at
          w in
      elim (Bool-cases (non_empty raw)) [
        | inl given ↦ (ground arith, ground arith)
        | inr blank ↦ (ground arith, ground arith)
      ]

  pub refresh_of_blank :
      (w : World)
      → non_empty raw ≡ false
      → (is_ok (refresh p s raw device_id ip user_agent w).0 ≡ false)
        × ((refresh p s raw device_id ip user_agent w).1.db ≡ w.db)
  unfolding refresh ◌>>=◌
  refresh_of_blank w blank = (ground arith, ground arith)

  pub refresh_of_found :
      (w : World) (sess : Session)
      → non_empty raw ≡ true
      → (find_session p (hash_sha256_hex p raw) w).0 ≡ ok sess
      → refresh p s raw device_id ip user_agent w
        ≡ refresh_found p s sess
            (p.clock (find_session p (hash_sha256_hex p raw) w).1.tick)
            device_id
            ip
            user_agent
            (next (find_session p (hash_sha256_hex p raw) w).1)
  unfolding refresh lift now
  refresh_of_found w sess given found =
      bind-of_run _ _ w w tt (ap (λ b. (require b (sentinel missing_refresh), w)) given)
      ∙ bind-of_ok _ _ w sess found
      ∙ bind-of_run _ _ _ _ _ refl

  pub refresh-IsMove :
      (w : World)
      → IsMove p
          (view w.db.sessions)
          (refresh_call raw device_id ip user_agent)
          (is_ok (refresh p s raw device_id ip user_agent w).0)
          (view (refresh p s raw device_id ip user_agent w).1.db.sessions)
  refresh-IsMove w = elim (Bool-cases (non_empty raw)) [
    | inr blank ↦
        let (fails, same) = refresh_of_blank w blank in IsMove-of_same p _ _ w.db _ fails same
    | inl given ↦ elim (Result-cases (find_session p (hash_sha256_hex p raw) w).0) [
      | inl (e, lost) ↦
          let (fails, same) = refresh_of_lost w e lost in IsMove-of_same p _ _ w.db _ fails same
      | inr (sess, found) ↦
          let (listed, same) = find_session-eq-ok p (hash_sha256_hex p raw) w found in
          let v = next (find_session p (hash_sha256_hex p raw) w).1 in
          let at = p.clock (find_session p (hash_sha256_hex p raw) w).1.tick in
          let after = refresh_found p s sess at device_id ip user_agent v in
          rw (refresh_of_found w sess given found) (
            subst
              (λ d.
                IsMove p (view d.sessions) (refresh_call raw device_id ip user_agent)
                  (is_ok after.0) (view after.1.db.sessions))
              same
              (refresh_found-IsMove sess at v (
                subst (λ d. by_hash (hash_sha256_hex p raw) d.sessions ≡ some sess) (sym same)
                  listed)))
    ]
  ]
