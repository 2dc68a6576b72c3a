-- ===== src/Keys/Loading.antt =====
-- LoadRSAPrivateKeyFromPEM (internal/auth/signer/load.go), a second loader of keys, which no code calls.
use shelf_auth.Prelude.{none, some, String_eq, ℕ_eq, Option, String, ◌≡◌, append, ◌↔◌, arith}
use shelf_auth.Keys.{KeyLibrary, load_key}
use shelf_auth.Platform.{Bytes}
use shelf_auth.Errors.{Result, err, wrap, failure, ok}

module _ (lib : KeyLibrary) where
  abbrev pub parsed_block : Option (Option Bytes) → Result Bytes
  parsed_block none = err (wrap "parse private key" (failure "x509: parse"))
  parsed_block (some none) = err (failure "not an RSA private key")
  parsed_block (some (some k)) = ok k

  abbrev pub pem_key : String → Option Bytes → Result Bytes
  pem_key path none = err (failure (append "invalid PEM: " path))
  pem_key path (some block) = elim (lib.pkcs1 block) [
    | some k ↦ ok k
    | none ↦ parsed_block (lib.pkcs8 block)
  ]

  abbrev pub read_key : String → Option Bytes → Result Bytes
  read_key path none = err (wrap "read key" (failure "open"))
  read_key path (some bytes) = pem_key path (lib.pem_block bytes)

  unfoldable pub load_rsa_private_key_from_pem : String → Result Bytes
  load_rsa_private_key_from_pem path = read_key path (lib.read_file path)

  -- It loads a key exactly if the loader of the signer's reloads loads that key.
  loaders_agree :
      (refused path : String) (key : Bytes)
      → (load_rsa_private_key_from_pem path ≡ ok key) ↔ (load_key lib refused path ≡ ok key)
  unfolding load_rsa_private_key_from_pem load_key
  loaders_agree refused path key = (λ h. ground arith, λ h. ground arith)
