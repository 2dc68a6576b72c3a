-- ===== src/Security/Token.antt =====
-- internal/security/token.go: opaque random tokens, and the hash under which one is stored.
pub mod Faithful
use shelf_auth.Prelude.{ℕ, String, none, some}
use shelf_auth.Platform.{Platform}
use shelf_auth.Errors.{Result, ok, err, failure}
use shelf_auth.Security.Encoding.{hex_encode, url_encode}

module _ (p : Platform) where
  -- `call` is the number of the call of rand.Read.
  unfoldable pub generate_opaque_token : ℕ → ℕ → Result String
  generate_opaque_token n_bytes call = elim (p.entropy call n_bytes) [
    | none ↦ err (failure "rand: read failed")
    | some buf ↦ ok (url_encode buf)
  ]

  unfoldable pub hash_sha256_hex : String → String
  hash_sha256_hex s = hex_encode (p.sha256 s)
