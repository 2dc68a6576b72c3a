-- ===== src/Service/Calls/Failures.antt =====
-- Calls of the service that end in an error (internal/service), and the tables after them.
use shelf_auth.Prelude.{
  none, some, String_eq, ℕ_eq, refl, inl, inr, Option, Bool, ◌≡◌, String, Bool-cases, arith, false,
}
use shelf_auth.Exec.{◌>>=◌, World}
use shelf_auth.Errors.{Result, Error, ok, err, errors_is, reused_refresh}
use shelf_auth.Platform.{Platform}
use shelf_auth.Service.Calls.{
  Call, register_call, refresh_call, step, login_call, logout_call, me_call,
}
use shelf_auth.Service.Logout.{logout}
use shelf_auth.Service.Config.{AuthService}
use shelf_auth.Service.Refresh.{refresh}
use shelf_auth.Tokens.{SignerLaws}
use shelf_auth.Service.Register.{register}
use shelf_auth.Domain.{non_empty}
use shelf_auth.Service.Atomic.{register-eq-err, login-eq-err, refresh-eq-err, me-Reads}
use shelf_auth.Service.Login.{login}
use shelf_auth.Service.Me.{me}

abbrev error_in {ℓ} : {A : Type ℓ} → Result A → Option Error
error_in (ok a) = none
error_in (err e) = some e

module _ (p : Platform) (s : AuthService) where
  -- The error that a call returns in a world, if it returns one.
  unfoldable pub failure_of : Call → World → Option Error
  failure_of (register_call email password verify) w =
      error_in (register p s email password verify w).0
  failure_of (login_call email password device_id ip user_agent) w =
      error_in (login p s email password device_id ip user_agent w).0
  failure_of (refresh_call raw device_id ip user_agent) w =
      error_in (refresh p s raw device_id ip user_agent w).0
  failure_of (logout_call raw) w = error_in (logout p raw w).0
  failure_of (me_call id) w = error_in (me p id w).0

-- The one error after which a change is kept: that of a token that is shown again.
unfoldable pub tells_reuse : Call → Error → Bool
tells_reuse (refresh_call raw device_id ip user_agent) e = errors_is e reused_refresh
tells_reuse c e = false

failed {ℓ} : {A : Type ℓ} (r : Result A) (e : Error) → error_in r ≡ some e → r ≡ err e
failed (ok a) e h = absurd (ground arith)
failed (err x) e h = ground arith

pub logout_never_fails : (p : Platform) (raw : String) (w : World) → (logout p raw w).0 ≡ ok tt
unfolding logout ◌>>=◌
logout_never_fails p raw w = elim (Bool-cases (non_empty raw)) [
  | inl given ↦ rw given refl
  | inr missing ↦ rw missing refl
]

module _ (p : Platform) (s : AuthService) (laws : SignerLaws s.signer) where
  -- A call of the service that returns an error leaves both tables as they were, unless it is a refresh
  -- whose error is ErrReusedRefresh. The signer is one that leaves the database alone.
  pub step-eq-err :
      (c : Call) (w : World) (e : Error)
      → failure_of p s c w ≡ some e
      → tells_reuse c e ≡ false
      → (step p s c w).db ≡ w.db
  unfolding step failure_of tells_reuse
  step-eq-err (register_call email password verify) w e h other =
      register-eq-err p s laws email password verify w e (failed _ e h)
  step-eq-err (login_call email password device_id ip user_agent) w e h other =
      login-eq-err p s laws email password device_id ip user_agent w e (failed _ e h)
  step-eq-err (refresh_call raw device_id ip user_agent) w e h other =
      refresh-eq-err p s laws raw device_id ip user_agent w e other (failed _ e h)
  step-eq-err (logout_call raw) w e h other = absurd (ground (arith, logout_never_fails p raw w))
  step-eq-err (me_call id) w e h other = (me-Reads p id).at w
