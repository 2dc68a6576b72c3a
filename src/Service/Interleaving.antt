-- ===== src/Service/Interleaving.antt =====
-- Calls of the service (internal/service) that run at the same time. Each call reads at most one
-- row and then makes at most one change (a statement or a transaction), so a call is cut in two: what
-- it does up to its read, and the rest. Between the two other calls may do either.
pub mod Sequential
pub mod Safety
pub mod Exchange
pub mod Once
pub mod Race
pub mod Sound
use shelf_auth.Domain.{Session, User, non_empty}
use shelf_auth.Platform.{Platform, Time, EntityId}
use shelf_auth.Exec.{◌>>◌, ◌>>=◌, World, Exec, lift, now, pure}
use shelf_auth.Prelude.{Option, List, String, some, ◌∷◌, ◌≡◌, none, ◌++◌, Bool}
use shelf_auth.Service.Config.{AuthService}
use shelf_auth.Service.Calls.{
  Call, refresh_call, login_call, step, register_call, logout_call, me_call,
}
use shelf_auth.Service.Refresh.{refresh_found, find_session}
use shelf_auth.Errors.{Result, err, ok, require, sentinel, missing_refresh}
use shelf_auth.Service.Login.{issue, authenticate}
use shelf_auth.Security.Token.{hash_sha256_hex}
use shelf_auth.Service.Register.{register}
use shelf_auth.Service.Logout.{logout}
use shelf_auth.Service.Me.{me}

-- A call that is under way: what it has read, if it reads before it changes anything.
pub data Task : Type 0 where
  refreshing : Session → Time → String → String → String → Task
  issuing : User → String → String → String → Task
  registering : String → String → Bool → Task
  logging_out : String → Task
  viewing : EntityId → Task

module _ (p : Platform) (s : AuthService) where
  -- The first half of AuthService.Refresh.
  unfoldable pub read_session : String → Exec (Session × Time)
  read_session raw = do
    lift (require (non_empty raw) (sentinel missing_refresh))
    sess ← find_session p (hash_sha256_hex p raw)
    at ← now p
    pure (sess, at)

  abbrev pub refresh_read : String → String → String → Result (Session × Time) → Option Task
  refresh_read device_id ip user_agent (err e) = none
  refresh_read device_id ip user_agent (ok (sess, at)) =
      some (refreshing sess at device_id ip user_agent)

  abbrev pub login_read : String → String → String → Result User → Option Task
  login_read device_id ip user_agent (err e) = none
  login_read device_id ip user_agent (ok u) = some (issuing u device_id ip user_agent)

  -- What is under way after a call's first half; a call that failed in it is over.
  unfoldable pub begin : Call → World → Option Task × World
  unfolding read_session
  begin (refresh_call raw device_id ip user_agent) w =
      let (r, w') = read_session raw w in (refresh_read device_id ip user_agent r, w')
  begin (login_call email password device_id ip user_agent) w =
      let (r, w') = authenticate p s email password w in (login_read device_id ip user_agent r, w')
  begin (register_call email password verify) w = (some (registering email password verify), w)
  begin (logout_call raw) w = (some (logging_out raw), w)
  begin (me_call id) w = (some (viewing id), w)

  unfoldable pub finish : Task → World → World
  finish (refreshing sess at device_id ip user_agent) w =
      (refresh_found p s sess at device_id ip user_agent w).1
  finish (issuing u device_id ip user_agent) w = (issue p s u device_id ip user_agent w).1
  finish (registering email password verify) w = (register p s email password verify w).1
  finish (logging_out raw) w = (logout p raw w).1
  finish (viewing id) w = (me p id w).1

  unfoldable pub finish_all : Option Task → World → World
  unfolding finish
  finish_all none w = w
  finish_all (some t) w = finish t w

-- The world, and the calls that are under way in it.
pub record System : Type 0 where
  pub world : World
  pub tasks : List Task

abbrev pub with_task : Option Task → List Task → List Task
with_task none ts = ts
with_task (some t) ts = t ∷ ts

module _ (p : Platform) (s : AuthService) where
  -- Any call may come in, and any call that is under way may go on.
  pub data Step (y : System) : System → Type 0 where
    comes_in :
        (c : Call)
        → Step y (record {
          world = (begin p s c y.world).1;
          tasks = with_task (begin p s c y.world).0 y.tasks;
        })
    goes_on :
        (before : List Task) (t : Task) (after : List Task)
        → y.tasks ≡ before ++ t ∷ after
        → Step y (record { world = finish p s t y.world; tasks = before ++ after })

  pub data Reach (y : System) : System → Type 0 where
    here : Reach y y
    later : {z v : System} → Reach y z → Step z v → Reach y v
