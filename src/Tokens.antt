-- ===== src/Tokens.antt =====
-- internal/tokens: the claims of an access token, and the interfaces of what signs and what
-- verifies it.
use shelf_auth.Prelude.{◌≡◌, String}
use shelf_auth.Platform.{Time, Duration}
use shelf_auth.Exec.{Exec, World}

pub record AccessClaims : Type 0 where
  pub user_id : String
  pub email : String

-- tokens.Signer: the token and the time at which it expires.
pub record TokenSigner : Type 0 where
  pub sign_access : AccessClaims → Duration → Exec (String × Time)

-- tokens.Verifier
pub record TokenVerifier : Type 0 where
  pub verify_access : String → Exec AccessClaims

-- What the service relies on: signing does not touch the database.
pub record SignerLaws (s : TokenSigner) : Type 0 where
  pub keeps_db :
      (c : AccessClaims) (ttl : Duration) (w : World) → (s.sign_access c ttl w).1.db ≡ w.db
