-- ===== src/Service/Ledger/Refinement.antt =====
-- The service (internal/service) refines the ledger.
use shelf_auth.Prelude.{
  ◌∷◌, [], String_eq, ℕ_eq, refl, inl, inr, String, List, ◌≡◌, Bool, Bool-cases, arith, subst, ap,
  ◌∙◌, suc, is_some, ◌||◌, not, true,
}
use shelf_auth.Exec.{◌>>=◌, World, statement, relabel, fresh}
use shelf_auth.Platform.{Platform}
use shelf_auth.Service.Config.{AuthService}
use shelf_auth.Tokens.{SignerLaws}
use shelf_auth.Service.Register.{register}
use shelf_auth.Service.Logout.{logout}
use shelf_auth.Service.Calls.{
  step, run, Call, login_call, logout_call, register_call, refresh_call, me_call, succeeds, trace,
}
use shelf_auth.Repo.Users.{insert_row, insert}
use shelf_auth.Repo.Sessions.{revoke_by_hash}
use shelf_auth.Service.Ledger.Refresh.{IsMove, IsMove-of_same, refresh-IsMove}
use shelf_auth.Service.Ledger.{Event, Plays, nothing, replay, idle, granted, ended, grants, ends}
use shelf_auth.Service.Ledger.View.{view, grant_of, view-append, view-end}
use shelf_auth.Service.Login.{login}
use shelf_auth.Errors.{Result-cases, is_ok}
use shelf_auth.Domain.{non_empty}
use shelf_auth.Service.Atomic.{login-eq-err, me-Reads}
use shelf_auth.Service.Login.Success.{login-eq-ok}
use shelf_auth.Security.Token.{hash_sha256_hex}
use shelf_auth.Service.Logout.Ends.{logout_revokes}
use shelf_auth.Service.Calls.Failures.{logout_never_fails}

module _ (p : Platform) (s : AuthService) (laws : SignerLaws s.signer) where
  login-IsMove :
      (email password device_id ip user_agent : String) (w : World)
      → IsMove p
          (view w.db.sessions)
          (login_call email password device_id ip user_agent)
          (is_ok (login p s email password device_id ip user_agent w).0)
          (view (login p s email password device_id ip user_agent w).1.db.sessions)
  login-IsMove email password device_id ip user_agent w =
      elim (Result-cases (login p s email password device_id ip user_agent w).0) [
        | inl (e, failed) ↦
            IsMove-of_same p _ _ w.db _ (ap is_ok failed)
              (login-eq-err p s laws email password device_id ip user_agent w e failed)
        | inr (r, done) ↦
            let g = login-eq-ok p s laws device_id ip user_agent email password w r done in
            rw (ap is_ok done) (record {
              event = granted g.session.refresh_hash (grant_of g.session);
              allowed =
                  grants email password device_id ip user_agent g.session.refresh_hash
                    (grant_of g.session) (rw (g.issued.unrevoked, g.issued.unreplaced) refl)
                    g.issued.device;
              moved = ap view g.sessions ∙ view-append w.db.sessions g.session;
            })
      ]

  register-sessions :
      (email password : String) (verify : Bool) (w : World)
      → (register p s email password verify w).1.db.sessions ≡ w.db.sessions
  unfolding register insert insert_row relabel fresh statement ◌>>=◌
  register-sessions email password verify w = ground arith

  logout-db :
      (raw : String) (w : World)
      → (is_some (p.fault (suc w.tick)) || not (non_empty raw)) ≡ true
      → (logout p raw w).1.db ≡ w.db
  unfolding logout ◌>>=◌ revoke_by_hash statement
  logout-db raw w h = ground arith

  logout-IsMove :
      (raw : String) (w : World)
      → IsMove p
          (view w.db.sessions)
          (logout_call raw)
          (is_ok (logout p raw w).0)
          (view (logout p raw w).1.db.sessions)
  logout-IsMove raw w = elim (Bool-cases (is_some (p.fault (suc w.tick)) || not (non_empty raw))) [
    | inl idles ↦ IsMove-of_same p _ _ w.db _ refl (logout-db raw w idles)
    | inr works ↦ rw (ap is_ok (logout_never_fails p raw w)) (record {
      event = ended (hash_sha256_hex p raw);
      allowed = ends raw;
      moved =
          ap (λ d. view d.sessions) (logout_revokes p raw w (ground arith) (ground arith))
          ∙ view-end (hash_sha256_hex p raw) (p.clock w.tick) w.db.sessions;
    })
  ]

  step-IsMove :
      (c : Call) (w : World)
      → IsMove p (view w.db.sessions) c (succeeds p s c w) (view (step p s c w).db.sessions)
  unfolding step succeeds
  step-IsMove (register_call email password verify) w = record {
    event = nothing;
    allowed = idle _ _ refl;
    moved = ap view (register-sessions email password verify w);
  }
  step-IsMove (login_call email password device_id ip user_agent) w =
      login-IsMove email password device_id ip user_agent w
  step-IsMove (refresh_call raw device_id ip user_agent) w =
      refresh-IsMove p s laws raw device_id ip user_agent w
  step-IsMove (logout_call raw) w = logout-IsMove raw w
  step-IsMove (me_call id) w = IsMove-of_same p _ _ w.db _ refl ((me-Reads p id).at w)

  -- Whatever calls of the service come in sequence, and whatever each returns: there are events, one for
  -- each call and allowed, with whether the call succeeds, by the ledger that it meets, whose replay on
  -- the ledger of the sessions before gives the ledger of the sessions after. A login that succeeds grants
  -- an open token for its device; a refresh that succeeds exchanges the open token that it is given for
  -- another of its user; one that fails may withdraw the grants of a spent token; a logout may end
  -- its token; all else changes nothing. The signer is one that leaves the database alone.
  pub run-Plays :
      (cs : List Call) (w : World)
      → (es : List Event) × Plays p (view w.db.sessions) (trace p s cs w) es
        × (view (run p s cs w).db.sessions ≡ replay es (view w.db.sessions))
  unfolding run trace
  run-Plays [] w = ([], tt, refl)
  run-Plays (c ∷ cs) w =
      let m = step-IsMove c w in
      let (es, plays, same) = run-Plays cs (step p s c w) in
      (
        m.event ∷ es,
        (m.allowed, subst (λ l. Plays p l (trace p s cs (step p s c w)) es) m.moved plays),
        same ∙ ap (replay es) m.moved,
      )
