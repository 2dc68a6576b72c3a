-- ===== src/Security/Password/Hashing.antt =====
-- Laws of HashPassword and CheckPassword (internal/security/password.go).
use shelf_auth.Platform.{Platform}
use shelf_auth.Security.Password.{hash_password, check_password, Options, pre_kdf, cost_of}
use shelf_auth.Prelude.{
  ℕ, String, ◌≡◌, some, true, is_empty, is_empty_of_trim_space, trim_space, false, arith,
}
use shelf_auth.Errors.{ok}

-- What the program relies on in bcrypt: a hash matches the input that it was made from, and is
-- not empty.
pub record BcryptLaws (p : Platform) : Type 0 where
  pub matches :
      (salt : ℕ) (pre hash : String) (cost : ℕ)
      → p.bcrypt_generate salt pre cost ≡ some hash
      → p.bcrypt_matches hash pre ≡ true
  pub not_blank :
      (salt : ℕ) (pre hash : String) (cost : ℕ)
      → p.bcrypt_generate salt pre cost ≡ some hash
      → is_empty (trim_space hash) ≡ false

hash_password-eq-ok :
    (p : Platform) (plain hash : String) (opt : Options) (salt : ℕ)
    → hash_password p plain opt salt ≡ ok hash
    → (is_empty plain ≡ false)
      × (cost : ℕ) × (p.bcrypt_generate salt (pre_kdf p plain opt.pepper) cost ≡ some hash)
unfolding hash_password
hash_password-eq-ok p plain hash opt salt h = (ground arith, cost_of p opt, ground arith)

pub non_blank-hash_password :
    (p : Platform) (laws : BcryptLaws p) (plain hash : String) (opt : Options) (salt : ℕ)
    → hash_password p plain opt salt ≡ ok hash
    → is_empty (trim_space hash) ≡ false
non_blank-hash_password p laws plain hash opt salt h =
    let (given, cost, made) = hash_password-eq-ok p plain hash opt salt h in
    laws.not_blank salt _ hash cost made

-- What HashPassword returns for a password, CheckPassword accepts with that password under
-- options with the same pepper, whatever their cost. A bcrypt hash matches what it was made from,
-- and is not blank.
pub check-hash :
    (p : Platform) (laws : BcryptLaws p) (plain hash : String) (opt opt' : Options) (salt : ℕ)
    → opt'.pepper ≡ opt.pepper
    → hash_password p plain opt salt ≡ ok hash
    → check_password p hash plain opt' ≡ ok tt
unfolding check_password
check-hash p laws plain hash opt opt' salt same h =
    let (given, cost, made) = hash_password-eq-ok p plain hash opt salt h in
    let matched = laws.matches salt _ hash cost made in
    rw (is_empty_of_trim_space hash (laws.not_blank salt _ hash cost made), given, same, matched)
