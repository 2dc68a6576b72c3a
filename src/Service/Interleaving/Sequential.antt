-- ===== src/Service/Interleaving/Sequential.antt =====
-- Calls in two halves (internal/service), one right after the other.
use shelf_auth.Prelude.{refl}
use shelf_auth.Platform.{Platform, Time}
use shelf_auth.Service.Interleaving.{finish_all, begin, read_session, refresh_read, login_read}
use shelf_auth.Service.Config.{AuthService}
use shelf_auth.Prelude.{String, ◌≡◌, arith, ◌∙◌, ap}
use shelf_auth.Service.Calls.{
  step, Call, refresh_call, login_call, register_call, logout_call, me_call,
}
use shelf_auth.Errors.{Result, err, ok}
use shelf_auth.Service.Refresh.{refresh, refresh_found}
use shelf_auth.Service.Login.{login, issue, authenticate}
use shelf_auth.Domain.{Session, User}
use shelf_auth.Exec.{◌>>=◌, World, continue}

module _ (p : Platform) (s : AuthService) (device_id ip user_agent : String) where
  finish_refresh :
      (r : Result (Session × Time)) (w : World)
      → finish_all p s (refresh_read p s device_id ip user_agent r) w
        ≡ (continue r (λ x. refresh_found p s x.0 x.1 device_id ip user_agent) w).1
  unfolding finish_all
  finish_refresh (err e) w = refl
  finish_refresh (ok x) w = refl

  finish_login :
      (r : Result User) (w : World)
      → finish_all p s (login_read p s device_id ip user_agent r) w
        ≡ (continue r (λ u. issue p s u device_id ip user_agent) w).1
  unfolding finish_all
  finish_login (err e) w = refl
  finish_login (ok u) w = refl

  -- Refresh is its first half and then the rest.
  refresh_halves :
      (raw : String) (w : World)
      → (read_session p s raw >>= (λ x. refresh_found p s x.0 x.1 device_id ip user_agent)) w
        ≡ refresh p s raw device_id ip user_agent w
  unfolding refresh read_session ◌>>=◌
  refresh_halves raw w = ground arith

-- A call in two halves with nothing in between does what the call does as a whole.
finish_all-begin :
    (p : Platform) (s : AuthService) (c : Call) (w : World)
    → finish_all p s (begin p s c w).0 (begin p s c w).1 ≡ step p s c w
unfolding finish_all begin step login ◌>>=◌
finish_all-begin p s (refresh_call raw device_id ip user_agent) w =
    finish_refresh p s device_id ip user_agent (read_session p s raw w).0 (read_session p s raw w).1
    ∙ ap (λ x. x.1) (refresh_halves p s device_id ip user_agent raw w)
finish_all-begin p s (login_call email password device_id ip user_agent) w =
    finish_login p s device_id ip user_agent (authenticate p s email password w).0
      (authenticate p s email password w).1
    ∙ refl
finish_all-begin p s (register_call email password verify) w = refl
finish_all-begin p s (logout_call raw) w = refl
finish_all-begin p s (me_call id) w = refl
