-- ===== src/Service/Calls/Sound.antt =====
-- The calls of the service (internal/service) leave sound tables sound.
use shelf_auth.Prelude.{
  some, String_eq, ℕ_eq, inl, inr, String, Bool, Bool-cases, ◌≡◌, ◌⊎◌, arith, is_some, update, ltb,
  trim_space_idem, suc, ◌+◌, ◌||◌, not, true, subst, sym, ◌∙◌, ap,
}
use shelf_auth.Exec.{◌>>=◌, Db, World, statement, raise, next}
use shelf_auth.Platform.{Platform, Time}
use shelf_auth.Service.Config.{AuthService}
use shelf_auth.Tokens.{SignerLaws}
use shelf_auth.Security.Password.Hashing.{BcryptLaws}
use shelf_auth.Service.Logout.{logout}
use shelf_auth.Service.Calls.Soundness.{
  KeepsSound, KeepsSound-of_same, revoke-KeepsSound, session-KeepsSound, account-KeepsSound,
  is_verified-of_found, is_verified, rotation-KeepsSound, IsSound, is_verified-of_hash,
}
use shelf_auth.Repo.Sessions.{
  revoke_by_hash, update_rows, by_hash, is_live_with, is_live_on, set_revoked,
}
use shelf_auth.Domain.{Session, non_empty, User}
use shelf_auth.Service.Refresh.{refresh_found, refresh, reject_reuse, rotate_session, find_session}
use shelf_auth.Service.Login.{login, issue}
use shelf_auth.Service.Register.{register}
use shelf_auth.Errors.{Result-cases}
use shelf_auth.Service.Atomic.{
  login-eq-err, register-eq-err, rotate_session-IsAtomic, issue-IsAtomic,
}
use shelf_auth.Service.Ledger.Refresh.{
  reject_reuse-db, refresh_of_blank, refresh_of_lost, refresh_of_found,
}
use shelf_auth.Security.Token.{hash_sha256_hex}
use shelf_auth.Service.Login.Success.{login-eq-ok, issue-eq-ok}
use shelf_auth.Service.Register.Success.{register-eq-ok}
use shelf_auth.Service.Refresh.Rotation.{rotate_session-eq-ok, find_session-eq-ok}

module _ (p : Platform) (s : AuthService) (laws : SignerLaws s.signer) where
  abbrev Keeps : Db → Db → Type 0
  Keeps = KeepsSound p s.refresh_ttl

  pub issue-KeepsSound :
      (u : User) (device_id ip user_agent : String) (w : World)
      → is_verified w.db.users u.id ≡ true
      → KeepsSound p s.refresh_ttl w.db (issue p s u device_id ip user_agent w).1.db
  issue-KeepsSound u device_id ip user_agent w verified =
      elim (Result-cases (issue p s u device_id ip user_agent w).0) [
        | inl (e, failed) ↦
            KeepsSound-of_same p s.refresh_ttl w.db _
              ((issue-IsAtomic p s laws u device_id ip user_agent).at w e tt failed)
        | inr (r, done) ↦
            let (t, issued, added) = issue-eq-ok p s laws device_id ip user_agent u w done in
            session-KeepsSound p s.refresh_ttl w.db _ t (ap (λ d. d.users) added)
              (ap (λ d. d.sessions) added) issued.end (rw issued.owner verified)
      ]

  pub login-KeepsSound :
      (email password device_id ip user_agent : String) (w : World)
      → KeepsSound p s.refresh_ttl w.db (login p s email password device_id ip user_agent w).1.db
  login-KeepsSound email password device_id ip user_agent w =
      elim (Result-cases (login p s email password device_id ip user_agent w).0) [
        | inl (e, failed) ↦
            KeepsSound-of_same p s.refresh_ttl w.db _
              (login-eq-err p s laws email password device_id ip user_agent w e failed)
        | inr (r, done) ↦
            let g = login-eq-ok p s laws device_id ip user_agent email password w r done in
            session-KeepsSound p s.refresh_ttl w.db _ g.session g.users g.sessions g.issued.end (
              rw g.issued.owner
                (is_verified-of_found _ w.db.users g.account g.accepted.listed g.accepted.verified))
      ]

  module _ (bcrypt : BcryptLaws p) where
    pub register-KeepsSound :
        (email password : String) (verify : Bool) (w : World)
        → KeepsSound p s.refresh_ttl w.db (register p s email password verify w).1.db
    register-KeepsSound email password verify w =
        elim (Result-cases (register p s email password verify w).0) [
          | inl (e, failed) ↦
              KeepsSound-of_same p s.refresh_ttl w.db _
                (register-eq-err p s laws email password verify w e failed)
          | inr (r, done) ↦
              let g = register-eq-ok p s bcrypt email password verify w r done in
              account-KeepsSound p s.refresh_ttl w.db _ g.row g.users g.sessions
                (rw g.email g.address) (rw g.email (trim_space_idem email))
        ]

  logout-cases :
      (raw : String) (w : World)
      → ((logout p raw w).1.db ≡ w.db)
        ⊎ ((logout p raw w).1.db ≡ record w.db {
          sessions =
              update
                (is_live_with (hash_sha256_hex p raw))
                (set_revoked (p.clock w.tick))
                w.db.sessions;
        })
  unfolding logout ◌>>=◌ revoke_by_hash statement update_rows
  logout-cases raw w = elim (Bool-cases (is_some (p.fault (suc w.tick)) || not (non_empty raw))) [
    | inl idles ↦ inl (ground arith)
    | inr works ↦ inr (ground arith)
  ]

  pub logout-KeepsSound :
      (raw : String) (w : World) → KeepsSound p s.refresh_ttl w.db (logout p raw w).1.db
  logout-KeepsSound raw w = elim (logout-cases raw w) [
    | inl same ↦ KeepsSound-of_same p s.refresh_ttl w.db _ same
    | inr revokes ↦ rw revokes (
        revoke-KeepsSound p s.refresh_ttl w.db (is_live_with (hash_sha256_hex p raw))
          (p.clock w.tick) (λ t h. ground arith))
  ]

  module _ (raw device_id ip user_agent : String) where
    reject_reuse-KeepsSound :
        (sess : Session) (at : Time) (v : World) → Keeps v.db (reject_reuse p sess at v).1.db
    reject_reuse-KeepsSound sess at v =
        elim (reject_reuse-db p s laws raw device_id ip user_agent sess at v) [
          | inl same ↦ KeepsSound-of_same p s.refresh_ttl v.db _ same
          | inr revokes ↦ rw revokes (
              revoke-KeepsSound p s.refresh_ttl v.db (is_live_on sess.user_id sess.device_id) at
                (λ t h. ground arith))
        ]

    rotate_session-KeepsSound :
        (sess : Session) (at : Time) (v : World)
        → (IsSound p s.refresh_ttl v.db → is_verified v.db.users sess.user_id ≡ true)
        → Keeps v.db (rotate_session p s sess at device_id ip user_agent v).1.db
    rotate_session-KeepsSound sess at v owned sound =
        elim (Result-cases (rotate_session p s sess at device_id ip user_agent v).0) [
          | inl (e, failed) ↦
              KeepsSound-of_same p s.refresh_ttl v.db _
                ((rotate_session-IsAtomic p s laws {P = λ e. Unit} sess at device_id ip
                    user_agent).at
                  v e tt failed)
                sound
          | inr (r, done) ↦
              let m = rotate_session-eq-ok p s laws device_id ip user_agent sess at v done in
              rotation-KeepsSound p s.refresh_ttl v.db _ m.row sess.jti m.link_id m.users m.sessions
                (m.successor.end ∙ ap (λ x. x + s.refresh_ttl) (sym m.successor.start))
                (rw m.successor.owner (owned sound)) sound
        ]

    pub refresh_found-KeepsSound :
        (sess : Session) (at : Time) (v : World)
        → (IsSound p s.refresh_ttl v.db → is_verified v.db.users sess.user_id ≡ true)
        → Keeps v.db (refresh_found p s sess at device_id ip user_agent v).1.db
    unfolding refresh_found raise rotate_session reject_reuse
    refresh_found-KeepsSound sess at v owned = elim (Bool-cases (is_some sess.revoked_at)) [
      | inl revoked ↦ rw revoked (λ x. x)
      | inr live ↦ elim (Bool-cases (ltb sess.expires_at at)) [
        | inl late ↦ rw (live, late) (λ x. x)
        | inr in_time ↦ elim (Bool-cases (is_some sess.replaced_by)) [
          | inl spent ↦ rw (live, in_time, spent) (reject_reuse-KeepsSound sess at v)
          | inr unspent ↦ rw (live, in_time, unspent) (rotate_session-KeepsSound sess at v owned)
        ]
      ]
    ]

    pub refresh-KeepsSound :
        (w : World)
        → KeepsSound p s.refresh_ttl w.db (refresh p s raw device_id ip user_agent w).1.db
    refresh-KeepsSound w = elim (Bool-cases (non_empty raw)) [
      | inr blank ↦
          KeepsSound-of_same p s.refresh_ttl w.db _
            (refresh_of_blank p s laws raw device_id ip user_agent w blank).1
      | inl given ↦ elim (Result-cases (find_session p (hash_sha256_hex p raw) w).0) [
        | inl (e, lost) ↦
            KeepsSound-of_same p s.refresh_ttl w.db _
              (refresh_of_lost p s laws raw device_id ip user_agent w e lost).1
        | inr (sess, found) ↦
            let (listed, same) = find_session-eq-ok p (hash_sha256_hex p raw) w found in
            let read = (find_session p (hash_sha256_hex p raw) w).1 in
            let run = refresh_found-KeepsSound sess (p.clock read.tick) (next read) (λ v.
              is_verified-of_hash p s.refresh_ttl read.db (hash_sha256_hex p raw) sess v (
                subst (λ d. by_hash (hash_sha256_hex p raw) d.sessions ≡ some sess) (sym same)
                  listed)) in
            λ sound.
              rw (refresh_of_found p s laws raw device_id ip user_agent w sess given found)
                (run (subst (IsSound p s.refresh_ttl) (sym same) sound))
      ]
    ]
