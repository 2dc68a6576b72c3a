-- ===== src/Service/Ledger.antt =====
-- What the service (internal/service) promises about refresh tokens, without its tables: a ledger that says
-- for the hash of each token what was granted with it, and the events that change a ledger.
pub mod View
pub mod Refresh
pub mod Refinement
use shelf_auth.Prelude.{
  none, some, ◌∷◌, [], String_eq, ℕ_eq, String, Option, List, Bool, if◌then◌else◌, not, ◌==◌, ◌&&◌,
  ◌≡◌, true, false,
}
use shelf_auth.Platform.{EntityId, Platform, Time}
use shelf_auth.Service.Calls.{Call, login_call, refresh_call, logout_call}
use shelf_auth.Security.Token.{hash_sha256_hex}

-- What a token was granted for, and whether it was exchanged or revoked.
pub record Grant : Type 0 where
  pub user_id : EntityId
  pub device_id : String
  pub jti : String
  pub spent : Bool
  pub revoked : Bool

abbrev pub Ledger : Type 0
Ledger = String → Option Grant

abbrev pub map_grant : (Grant → Grant) → Option Grant → Option Grant
map_grant f none = none
map_grant f (some g) = some (f g)

abbrev pub or_grant : Option Grant → Option Grant → Option Grant
or_grant none o = o
or_grant (some g) o = some g

-- A change of each grant, which may depend on its hash.
abbrev pub revise : (String → Grant → Grant) → Ledger → Ledger
revise f l hash = map_grant (f hash) (l hash)

-- A hash that the ledger knows keeps its grant.
abbrev pub grant : String → Grant → Ledger → Ledger
grant new g l hash = or_grant (l hash) (if new == hash then some g else none)

abbrev pub spend : String → Grant → Grant
spend jti g = if g.jti == jti then record g { spent = true } else g

abbrev pub end_at : String → String → Grant → Grant
end_at ended hash g = if hash == ended then record g { revoked = true } else g

abbrev pub withdraw : EntityId → String → Grant → Grant
withdraw user_id device_id g =
    if g.user_id == user_id && g.device_id == device_id then record g { revoked = true } else g

pub data Event : Type 0 where
  nothing : Event
  granted : String → Grant → Event
  exchanged : Grant → String → Grant → Event
  ended : String → Event
  withdrawn : EntityId → String → Event

abbrev pub apply : Event → Ledger → Ledger
apply nothing l = l
apply (granted hash g) l = grant hash g l
apply (exchanged old hash g) l = revise (λ h. spend old.jti) (grant hash g l)
apply (ended hash) l = revise (end_at hash) l
apply (withdrawn user_id device_id) l = revise (λ h. withdraw user_id device_id) l

abbrev pub replay : List Event → Ledger → Ledger
replay [] l = l
replay (e ∷ es) l = replay es (apply e l)

abbrev pub is_open : Grant → Bool
is_open g = not g.spent && not g.revoked

-- Whether a call must cause an event: a login or a refresh that succeeds.
abbrev pub must_act : Call → Bool → Bool
must_act (login_call email password device_id ip user_agent) done = done
must_act (refresh_call raw device_id ip user_agent) done = done
must_act c done = false

-- The events that a call may cause that succeeds or does not: a login that succeeds grants a token for
-- its device, a refresh that succeeds exchanges an open token of a user for another one of that user, for
-- its device, a refresh that fails may withdraw the grants of a token that was exchanged before,
-- and a logout may end its token.
pub data Allows (p : Platform) (l : Ledger) : Call → Bool → Event → Type 0 where
  idle : (c : Call) (done : Bool) → must_act c done ≡ false → Allows p l c done nothing
  grants :
      (email password device_id ip user_agent hash : String) (g : Grant)
      → is_open g ≡ true
      → g.device_id ≡ device_id
      → Allows p l (login_call email password device_id ip user_agent) true (granted hash g)
  exchanges :
      (raw device_id ip user_agent hash : String) (old g : Grant)
      → l (hash_sha256_hex p raw) ≡ some old
      → is_open old ≡ true
      → is_open g ≡ true
      → g.user_id ≡ old.user_id
      → g.device_id ≡ device_id
      → Allows p l (refresh_call raw device_id ip user_agent) true (exchanged old hash g)
  withdraws :
      (raw device_id ip user_agent : String) (old : Grant)
      → l (hash_sha256_hex p raw) ≡ some old
      → old.spent ≡ true
      → old.revoked ≡ false
      → Allows p l
          (refresh_call raw device_id ip user_agent)
          false
          (withdrawn old.user_id old.device_id)
  ends : (raw : String) → Allows p l (logout_call raw) true (ended (hash_sha256_hex p raw))

-- Events for a sequence of calls, with their successes, each allowed by the ledger that it meets.
abbrev pub Plays : Platform → Ledger → List (Call × Bool) → List Event → Type 0
Plays p l [] [] = Unit
Plays p l [] (e ∷ es) = ⊥
Plays p l (x ∷ xs) [] = ⊥
Plays p l ((c, done) ∷ cs) (e ∷ es) = Allows p l c done e × Plays p (apply e l) cs es
