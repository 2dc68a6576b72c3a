-- ===== src/Tests/Secrets.antt =====
-- Passwords, tokens and their hashes.
use shelf_auth.Prelude.{
  ◌≡◌, refl, true, false, arith, ◌↔◌, ◌∷◌, [], any, length, codes, String, is_empty, trim_space,
  not, ltb, text_eq_iff, eq_of_some, trim_space-cons_of_graphic, sym, is_space, some,
}
use shelf_auth.Samples.{runs, ascii_runes, sample_platform, alice}
use shelf_auth.Platform.{Bytes}
use shelf_auth.Security.Password.Strength.{IsDisjoint, IsAcceptable, validate_password_iff}
use shelf_auth.Security.Password.{
  validate_password, hash_password, check_password, see, default_policy, default_options, pre_kdf,
}
use shelf_auth.Security.Password.Hashing.{BcryptLaws, check-hash}
use shelf_auth.Security.Encoding.Decoding.{IsBytes, url_decode}
use shelf_auth.Security.Token.{generate_opaque_token}
use shelf_auth.Domain.{non_empty}
use shelf_auth.Security.Token.Faithful.{token_faithful}
use shelf_auth.Errors.{ok}
use shelf_auth.Security.Password.Bounds.{DigestLaws, hash_password_within_limit}
use shelf_auth.Tests.Directories.{wide_platform}

dollar : (pre : String) → is_empty (trim_space (String.◌∷◌ "$" pre)) ≡ false
unfolding is_space
dollar pre = trim_space-cons_of_graphic "$" pre refl

bytes_of_test : (bs : Bytes) → any (λ b. not (ltb b 256)) bs ≡ false → IsBytes bs
bytes_of_test [] h = tt
bytes_of_test (b ∷ bs) h = (ground arith, bytes_of_test bs (ground arith))

ascii-IsDisjoint : IsDisjoint ascii_runes
unfolding is_space
ascii-IsDisjoint = record {
  upper-lower = λ r h. ground arith;
  digit-lower = λ r h. ground arith;
  digit-upper = λ r h. ground arith;
  mark-lower = λ r h. ground arith;
  mark-upper = λ r h. ground arith;
  mark-digit = λ r h. ground arith;
  space-lower = λ r h. ground arith;
  space-upper = λ r h. ground arith;
  space-digit = λ r h. ground arith;
  space-mark = λ r h. ground arith;
}

validate_password_iff_example :
    (validate_password ascii_runes default_policy "abc12345" ≡ ok tt)
    ↔ IsAcceptable ascii_runes default_policy "abc12345"
validate_password_iff_example =
    validate_password_iff ascii_runes ascii-IsDisjoint default_policy "abc12345"

abc12345_valid : validate_password ascii_runes default_policy "abc12345" ≡ ok tt
unfolding validate_password see
abc12345_valid = refl

pub sample_bcrypt : BcryptLaws sample_platform
sample_bcrypt = record {
  matches = λ salt pre hash cost h. (text_eq_iff hash (String.◌∷◌ "$" pre)).1 (sym (eq_of_some h));
  not_blank = λ salt pre hash cost h. rw (← eq_of_some h) (dollar pre);
}

hashed : hash_password sample_platform "abc12345" default_options 3 ≡ ok alice.password_hash
unfolding runs
hashed = refl

check-hash_example :
    check_password sample_platform alice.password_hash "abc12345" default_options ≡ ok tt
check-hash_example =
    check-hash sample_platform sample_bcrypt "abc12345" alice.password_hash default_options
      default_options 3 refl hashed

token_made : generate_opaque_token sample_platform 32 2 ≡ ok "AgcH"
unfolding runs
token_made = refl

token_faithful_example : (url_decode "AgcH" ≡ 2 ∷ 7 ∷ 7 ∷ []) × (non_empty "AgcH" ≡ true)
token_faithful_example =
    token_faithful sample_platform 32 2 2 (7 ∷ 7 ∷ []) "AgcH" (bytes_of_test (2 ∷ 7 ∷ 7 ∷ []) refl)
      refl token_made

abbrev wide_laws : DigestLaws wide_platform
wide_laws = record { sha256_size = λ s. refl; hmac_size = λ key s. refl }

abbrev wide_hash : String
wide_hash = "$0000000000000000000000000000000000000000000000000000000000000000"

hashes_wide : hash_password wide_platform "pw" default_options 0 ≡ ok wide_hash
unfolding runs
hashes_wide = refl

hash_password_within_limit_example :
    (length (codes (pre_kdf wide_platform "pw" [])) ≡ 64)
    × (some (String.◌∷◌ "$" (pre_kdf wide_platform "pw" [])) ≡ some wide_hash)
hash_password_within_limit_example =
    hash_password_within_limit wide_platform wide_laws "pw" wide_hash default_options 0 hashes_wide
