-- ===== src/Service/Calls/Invariants.antt =====
-- Sequences of calls of the service and the invariant of its tables.
use shelf_auth.Platform.{Platform}
use shelf_auth.Service.Config.{AuthService}
use shelf_auth.Tokens.{SignerLaws}
use shelf_auth.Service.Calls.{
  step, run, Call, register_call, login_call, refresh_call, logout_call, me_call,
}
use shelf_auth.Prelude.{List, ◌∷◌, []}
use shelf_auth.Exec.{World}
use shelf_auth.Repo.History.{Follows, Follows-Preorder}
use shelf_auth.Service.History.{
  register-Preserves, login-Preserves, refresh-Preserves, logout-Preserves, me-Preserves,
}

module _ (p : Platform) (s : AuthService) (laws : SignerLaws s.signer) where
  step-Follows : (c : Call) (w : World) → Follows p w.db (step p s c w).db
  unfolding step
  step-Follows (register_call email password verify) w =
      (register-Preserves p s laws email password verify).at w
  step-Follows (login_call email password device_id ip user_agent) w =
      (login-Preserves p s laws email password device_id ip user_agent).at w
  step-Follows (refresh_call raw device_id ip user_agent) w =
      (refresh-Preserves p s laws raw device_id ip user_agent).at w
  step-Follows (logout_call raw) w = (logout-Preserves p s laws raw).at w
  step-Follows (me_call id) w = (me-Preserves p s laws id).at w

  pub run-Follows : (cs : List Call) (w : World) → Follows p w.db (run p s cs w).db
  unfolding run
  run-Follows [] w = (Follows-Preorder p).reflexive w.db
  run-Follows (c ∷ cs) w =
      (Follows-Preorder p).transitive (step-Follows c w) (run-Follows cs (step p s c w))
