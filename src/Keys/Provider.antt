-- ===== src/Keys/Provider.antt =====
-- internal/auth/jwks/provider.go: the key set that a provider holds, and how it is renewed. The serialization
-- of a key set is a parameter.
pub mod Renewal
pub mod Tags
use shelf_auth.Prelude.{
  none, some, ◌∷◌, [], String_eq, ℕ_eq, String, ℕ, List, suc, Option, append, zero, trim_space,
}
use shelf_auth.Platform.{Platform, Bytes, Duration}
use shelf_auth.Http.Jwks.{KeySet}
use shelf_auth.Keys.{KeyLibrary, Entry}
use shelf_auth.Errors.{Result, err, failure, ok}
use shelf_auth.Security.Encoding.{hex_encode}
use shelf_auth.Keys.Published.{load_public_jwks}

pub record Provider : Type 0 where
  pub keys_dir : String
  pub alg : String
  pub held : KeySet

-- h[:n]
abbrev pub take_bytes : ℕ → Bytes → Bytes
take_bytes zero b = []
take_bytes (suc n) [] = []
take_bytes (suc n) (x ∷ b) = x ∷ take_bytes n b

-- json.Marshal of a jwk.Set with public keys under their kids, for an algorithm
abbrev pub Marshal : Type 0
Marshal = String → List (String × Bytes) → Option String

-- The first 16 bytes of the body's SHA-256 sum.
unfoldable pub weak_etag : Platform → String → String
weak_etag p body = append "W/\"" (append (hex_encode (take_bytes 16 (p.sha256 body))) "\"")

module _ (p : Platform) (lib : KeyLibrary) (marshal : Marshal) where
  abbrev pub cache : Provider → Option String → Result (Unit {0}) × Provider
  cache j none = (err (failure "json"), j)
  cache j (some payload) = (
    ok tt,
    record j {
      held = record { body = payload; etag = weak_etag p payload; max_age = j.held.max_age };
    },
  )

  abbrev pub renew : Provider → Result (List (String × Bytes)) → Result (Unit {0}) × Provider
  renew j (err e) = (err e, j)
  renew j (ok pub_keys) = cache j (marshal j.alg pub_keys)

  -- Refresh, for the entries that the walk over the directory visits.
  unfoldable pub refresh_keys : List Entry → Provider → Result (Unit {0}) × Provider
  refresh_keys walk j = renew j (load_public_jwks lib j.keys_dir walk)

  -- The ticks of StartAutoRefresh until its context is cancelled; errors are dropped.
  unfoldable pub auto_refresh : List (List Entry) → Provider → Provider
  auto_refresh [] j = j
  auto_refresh (walk ∷ ticks) j = auto_refresh ticks (refresh_keys walk j).1

  abbrev pub new_provider : String → String → Duration → List Entry → Provider
  new_provider keys_dir alg max_age walk =
      (refresh_keys walk (record {
        keys_dir = trim_space keys_dir;
        alg = alg;
        held = record { body = ""; etag = ""; max_age = max_age };
      })).1
