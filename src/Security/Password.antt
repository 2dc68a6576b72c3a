-- ===== src/Security/Password.antt =====
-- internal/security/password.go: the strength policy, and hashing with a pre-hash and bcrypt.
pub mod Strength
pub mod Hashing
pub mod Bounds
use shelf_auth.Prelude.{
  ℕ, ◌+◌, String, Bool, true, false, ◌&&◌, ◌||◌, not, none, some, List, [], ◌∷◌, is_empty, is_space,
  codes, ltb, ◌==◌, ℕ_eq, if◌then◌else◌,
}
use shelf_auth.Platform.{Platform, RuneClasses, Bytes}
use shelf_auth.Errors.{
  Result, ok, err, ◌>>=◌, ◌>>◌, require, sentinel, failure, empty_password, password_has_space,
  password_too_short, password_no_lower, password_no_upper, password_no_digit, password_no_symbol,
  missing_password_hash,
}
use shelf_auth.Security.Encoding.{hex_encode}

pub record Policy : Type 0 where
  pub min_length : ℕ
  pub require_lower : Bool
  pub require_upper : Bool
  pub require_digit : Bool
  pub require_symbol : Bool
  pub disallow_space : Bool

abbrev pub default_policy : Policy
default_policy = record {
  min_length = 8;
  require_lower = true;
  require_upper = false;
  require_digit = true;
  require_symbol = false;
  disallow_space = true;
}

-- The variables of the loop of `ValidatePassword`.
pub record Seen : Type 0 where
  pub has_lower : Bool
  pub has_upper : Bool
  pub has_digit : Bool
  pub has_symbol : Bool
  pub length : ℕ

abbrev pub nothing_seen : Seen
nothing_seen = record {
  has_lower = false;
  has_upper = false;
  has_digit = false;
  has_symbol = false;
  length = 0;
}

module _ (u : RuneClasses) where
  -- One round of the loop.
  unfoldable pub see : Policy → ℕ → Seen → Result Seen
  see pol r seen =
      let s = record seen { length = seen.length + 1 } in
      if u.is_lower r
      then ok (record s { has_lower = true })
      else if u.is_upper r
      then ok (record s { has_upper = true })
      else if u.is_digit r
      then ok (record s { has_digit = true })
      else if u.is_punct r || u.is_symbol r
      then ok (record s { has_symbol = true })
      else if is_space r && pol.disallow_space
      then err (sentinel password_has_space)
      else ok s

  unfoldable pub scan : Policy → List ℕ → Seen → Result Seen
  scan pol [] seen = ok seen
  scan pol (r ∷ rs) seen = see pol r seen >>= scan pol rs

  -- The tests after the loop.
  unfoldable pub judge : Policy → Seen → Result (Unit {0})
  judge pol seen = do
    require (not (ltb seen.length pol.min_length)) (sentinel password_too_short)
    require (not (pol.require_lower && not seen.has_lower)) (sentinel password_no_lower)
    require (not (pol.require_upper && not seen.has_upper)) (sentinel password_no_upper)
    require (not (pol.require_digit && not seen.has_digit)) (sentinel password_no_digit)
    require (not (pol.require_symbol && not seen.has_symbol)) (sentinel password_no_symbol)

  unfoldable pub validate_password : Policy → String → Result (Unit {0})
  unfolding scan judge
  validate_password pol pw = do
    require (not (is_empty pw)) (sentinel empty_password)
    seen ← scan pol (codes pw) nothing_seen
    judge pol seen

pub record Options : Type 0 where
  -- zero, and in Go a negative number too, stands for the default
  pub bcrypt_cost : ℕ
  -- an empty pepper is no pepper
  pub pepper : Bytes

abbrev pub default_bcrypt_cost : ℕ
default_bcrypt_cost = 12

abbrev pub default_options : Options
default_options = record { bcrypt_cost = default_bcrypt_cost; pepper = [] }

module _ (p : Platform) where
  pub digest : String → Bytes → Bytes
  digest plain [] = p.sha256 plain
  digest plain (k ∷ key) = p.hmac_sha256 (k ∷ key) plain

  unfoldable pub pre_kdf : String → Bytes → String
  unfolding digest
  pre_kdf plain pepper = hex_encode (digest plain pepper)

  abbrev pub cost_of : Options → ℕ
  cost_of opt = if opt.bcrypt_cost == 0 then default_bcrypt_cost else opt.bcrypt_cost

  -- `salt` stands for the randomness that bcrypt draws.
  unfoldable pub hash_password : String → Options → ℕ → Result String
  hash_password plain opt salt =
      if is_empty plain
      then err (sentinel empty_password)
      else elim (p.bcrypt_generate salt (pre_kdf plain opt.pepper) (cost_of opt)) [
        | none ↦ err (failure "bcrypt: invalid cost")
        | some hashed ↦ ok hashed
      ]

  unfoldable pub check_password : String → String → Options → Result (Unit {0})
  check_password hash plain opt = do
    require (not (is_empty hash)) (sentinel missing_password_hash)
    require (not (is_empty plain)) (sentinel empty_password)
    require (p.bcrypt_matches hash (pre_kdf plain opt.pepper)) (failure "bcrypt: mismatch")
