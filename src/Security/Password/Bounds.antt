-- ===== src/Security/Password/Bounds.antt =====
-- The length of what bcrypt is given (internal/security/password.go).
use shelf_auth.Security.Password.{digest}
use shelf_auth.Prelude.{some, ◌∷◌, [], String, length, ◌≡◌, ℕ, codes, arith}
use shelf_auth.Platform.{Platform, Bytes}
use shelf_auth.Security.Password.{hash_password, pre_kdf, Options, cost_of}
use shelf_auth.Errors.{ok}
use shelf_auth.Security.Encoding.Decoding.{count-hex_encode}

-- The sums of SHA-256 have 32 bytes.
pub record DigestLaws (p : Platform) : Type 0 where
  pub sha256_size : (s : String) → length (p.sha256 s) ≡ 32
  pub hmac_size : (key : Bytes) (s : String) → length (p.hmac_sha256 key s) ≡ 32

length-digest :
    (p : Platform) (laws : DigestLaws p) (plain : String) (pepper : Bytes)
    → length (digest p plain pepper) ≡ 32
unfolding digest
length-digest p laws plain [] = laws.sha256_size plain
length-digest p laws plain (k ∷ key) = laws.hmac_size (k ∷ key) plain

-- However long a password is that HashPassword hashes, the text that bcrypt is given for it has 64
-- characters, which is within bcrypt's limit of 72, where a SHA-256 sum has 32 bytes, with and
-- without a key; and the hash that is returned is what bcrypt made of that text.
pub hash_password_within_limit :
    (p : Platform) (laws : DigestLaws p) (plain hash : String) (opt : Options) (salt : ℕ)
    → hash_password p plain opt salt ≡ ok hash
    → (length (codes (pre_kdf p plain opt.pepper)) ≡ 64)
      × (p.bcrypt_generate salt (pre_kdf p plain opt.pepper) (cost_of p opt) ≡ some hash)
unfolding hash_password pre_kdf
hash_password_within_limit p laws plain hash opt salt made = (
  omega
      (arith, count-hex_encode (digest p plain opt.pepper), length-digest p laws plain opt.pepper),
  ground arith,
)
