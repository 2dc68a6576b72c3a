-- ===== src/Http/Auth/Subject.antt =====
-- Whose account GET /me shows (internal/httpserver and internal/auth/signer).
use shelf_auth.Prelude.{some, String_eq, ℕ_eq, find, ◌≡◌, ◌==◌, trim_prefix, suc}
use shelf_auth.Exec.{UserRow, World}
use shelf_auth.Platform.{Platform}
use shelf_auth.Keys.Tokens.{TokenLibrary}
use shelf_auth.Keys.Signing.{Signer}
use shelf_auth.Http.{Request, Response}
use shelf_auth.Domain.{parse_id}
use shelf_auth.Tokens.{AccessClaims}
use shelf_auth.Keys.Tokens.Accepted.{IsAccepted}
use shelf_auth.Http.Auth.Account.{account_shown}
use shelf_auth.Errors.{ok}

-- The account that a request to /me with an answer of 200 was given.
pub record IsSubject (p : Platform) (lib : TokenLibrary) (s : Signer) (r : Request) (w : World)
    (shown : Response) : Type 0 where
  pub claims : AccessClaims
  pub row : UserRow
  pub accepted :
      IsAccepted lib s
        (trim_prefix "Bearer " (r.header "Authorization"))
        claims
        (p.clock w.tick)
        (p.clock (suc w.tick))
  pub named : parse_id p claims.user_id ≡ ok row.id
  pub stored : find (λ u. u.id == row.id) w.db.users ≡ some row
  pub answered : shown ≡ account_shown row
