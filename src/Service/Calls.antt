-- ===== src/Service/Calls.antt =====
-- Sequences of calls of the service, each of which runs to its end before the next one begins.
pub mod Invariants
pub mod Failures
pub mod Soundness
pub mod Sound
use shelf_auth.Prelude.{String, Bool, List, ◌∷◌, []}
use shelf_auth.Platform.{Platform, EntityId}
use shelf_auth.Service.Config.{AuthService}
use shelf_auth.Exec.{World}
use shelf_auth.Service.Register.{register}
use shelf_auth.Service.Login.{login}
use shelf_auth.Service.Refresh.{refresh}
use shelf_auth.Service.Logout.{logout}
use shelf_auth.Service.Me.{me}
use shelf_auth.Errors.{is_ok}

pub data Call : Type 0 where
  register_call : String → String → Bool → Call
  login_call : String → String → String → String → String → Call
  refresh_call : String → String → String → String → Call
  logout_call : String → Call
  me_call : EntityId → Call

module _ (p : Platform) (s : AuthService) where
  -- The world after a call, whatever the call returns.
  unfoldable pub step : Call → World → World
  step (register_call email password verify) w = (register p s email password verify w).1
  step (login_call email password device_id ip user_agent) w =
      (login p s email password device_id ip user_agent w).1
  step (refresh_call raw device_id ip user_agent) w = (refresh p s raw device_id ip user_agent w).1
  step (logout_call raw) w = (logout p raw w).1
  step (me_call id) w = (me p id w).1

  -- Whether a call returns without an error.
  unfoldable pub succeeds : Call → World → Bool
  succeeds (register_call email password verify) w = is_ok (register p s email password verify w).0
  succeeds (login_call email password device_id ip user_agent) w =
      is_ok (login p s email password device_id ip user_agent w).0
  succeeds (refresh_call raw device_id ip user_agent) w =
      is_ok (refresh p s raw device_id ip user_agent w).0
  succeeds (logout_call raw) w = is_ok (logout p raw w).0
  succeeds (me_call id) w = is_ok (me p id w).0

  unfoldable pub run : List Call → World → World
  unfolding step
  run [] w = w
  run (c ∷ cs) w = run cs (step c w)

  -- The calls of a sequence, each with whether it succeeds.
  unfoldable pub trace : List Call → World → List (Call × Bool)
  unfolding step succeeds
  trace [] w = []
  trace (c ∷ cs) w = (c, succeeds c w) ∷ trace cs (step c w)
