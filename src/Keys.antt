-- ===== src/Keys.antt =====
-- internal/auth: the private keys in a directory, as the signer and the published key set read
-- them. A private or a public key is a sequence of bytes; reading files, PEM, ASN.1 and JWK are
-- parameters.
pub mod Signing
pub mod Loading
pub mod Tokens
pub mod Published
pub mod Provider
pub mod Consistency
use shelf_auth.Prelude.{
  ℕ_eq, none, some, String, ℕ, List, Option, Bool, if◌then◌else◌, leb, false, code, ◌&&◌, ◌∷◌, ◌==◌,
  ◌+◌, [], not, any, some, codes,
}
use shelf_auth.Errors.{Result, err, failure, ok}
use shelf_auth.Platform.{Bytes}

pub record KeyLibrary : Type 0 where
  -- os.ReadFile, and the bytes of the block that pem.Decode finds
  pub read_file : String → Option Bytes
  pub pem_block : Bytes → Option Bytes
  -- x509.ParsePKCS1PrivateKey; x509.ParsePKCS8PrivateKey, whose key may be no RSA key
  pub pkcs1 : Bytes → Option Bytes
  pub pkcs8 : Bytes → Option (Option Bytes)
  -- the public half, and jwk.FromRaw of it
  pub public_key : Bytes → Option Bytes

-- What a directory lists: an entry's name, the path to it, and, on a walk, whether it failed.
pub record Entry : Type 0 where
  pub name : String
  pub path : String
  pub is_dir : Bool
  pub failed : Bool

abbrev pub lower : ℕ → ℕ
lower c = if leb b'A' c && leb c b'Z' then c + 32 else c

unfoldable pub ends_in_pem : List ℕ → Bool
ends_in_pem [] = false
ends_in_pem (a ∷ []) = false
ends_in_pem (a ∷ b ∷ []) = false
ends_in_pem (a ∷ b ∷ c ∷ []) = false
ends_in_pem (a ∷ b ∷ c ∷ d ∷ []) =
    lower a == b'.' && lower b == b'p' && lower c == b'e' && lower d == b'm'
ends_in_pem (a ∷ b ∷ c ∷ d ∷ e ∷ rest) = ends_in_pem (b ∷ c ∷ d ∷ e ∷ rest)

-- strings.TrimSuffix(name, filepath.Ext(name)): without the last dot and what follows it.
unfoldable pub trim_extension : String → String
trim_extension String.[] = String.[]
trim_extension (String.◌∷◌ c s) =
    if code c == b'.' && not (any (λ d. d == b'.') (codes s))
    then String.[]
    else String.◌∷◌ c (trim_extension s)

module _ (lib : KeyLibrary) where
  abbrev pub key_of_block : String → Option Bytes → Result Bytes
  key_of_block refused none = err (failure refused)
  key_of_block refused (some block) = elim (lib.pkcs1 block) [
    | some k ↦ ok k
    | none ↦ elim (lib.pkcs8 block) [
      | none ↦ err (failure "x509: parse")
      | some none ↦ err (failure "not an RSA private key")
      | some (some k) ↦ ok k
    ]
  ]

  abbrev pub key_of_file : String → Option Bytes → Result Bytes
  key_of_file refused none = err (failure "open")
  key_of_file refused (some b) = key_of_block refused (lib.pem_block b)

  -- A PEM file with a PKCS#1 key, or else a PKCS#8 key; the text is the error for no PEM block.
  -- Both callers only ask whether there was an error.
  unfoldable pub load_key : String → String → Result Bytes
  load_key refused path = key_of_file refused (lib.read_file path)
