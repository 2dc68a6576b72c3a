-- ===== src/Keys/Tokens/Accepted.antt =====
-- What VerifyAccess (internal/auth/signer/signer.go) has checked of a token that it accepts.
use shelf_auth.Prelude.{some, String, ◌≡◌, arith, true, is_empty, false, Elem}
use shelf_auth.Keys.Tokens.{text, TokenLibrary, verify_access, Claims, acceptable_skew}
use shelf_auth.Keys.Signing.{Signer, key_with}
use shelf_auth.Exec.{◌>>=◌, World}
use shelf_auth.Tokens.{AccessClaims}
use shelf_auth.Platform.{Time, Bytes, Platform}
use shelf_auth.Keys.Tokens.Laws.{in_times}

-- The facts behind an accepted token, at the two times that were read.
pub record IsAccepted (lib : TokenLibrary) (s : Signer) (t : String) (c : AccessClaims)
    (at later : Time) : Type 0 where
  pub kid : String
  pub priv : Bytes
  pub tok : Claims
  pub loaded : key_with kid s.keys ≡ some priv
  pub parsed : lib.parse (lib.public_half priv) t at ≡ some tok
  pub issuer : tok.issuer ≡ some s.issuer
  pub audience : Elem s.audience tok.audience
  pub timely : in_times lib 0 tok at ≡ true
  pub still_timely : in_times lib acceptable_skew tok later ≡ true
  pub subject : tok.subject ≡ some (text c.user_id)
  pub named : is_empty c.user_id ≡ false

-- Verifying leaves the database alone.
pub verify_access-keeps_db :
    (p : Platform) (lib : TokenLibrary) (s : Signer) (t : String) (w : World)
    → (verify_access p lib s t w).1.db ≡ w.db
unfolding verify_access ◌>>=◌
verify_access-keeps_db p lib s t w = ground arith
