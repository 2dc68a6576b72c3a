-- ===== src/Security/Password/Strength.antt =====
-- ValidatePassword (internal/security/password.go) and an independent statement of its policy.
use mathlib.Core.Path.{ap₂, fun_ext}
use shelf_auth.Platform.{RuneClasses}
use shelf_auth.Prelude.{
  ℕ, List, ◌≡◌, String, Bool, true, is_empty, ◌||◌, ◌∷◌, arith, codes, false, any, [], ◌≤◌, ◌↔◌,
  is_space, ◌+◌, length, if◌then◌else◌, ◌&&◌, refl, suc, ◌∙◌, ap,
}
use shelf_auth.Security.Password.{Policy, see, scan, judge, validate_password, Seen, nothing_seen}
use shelf_auth.Errors.{Result, ok, err, sentinel, password_has_space, ◌>>=◌}

-- The classes of package unicode have no code point in common.
pub record IsDisjoint (u : RuneClasses) : Type 0 where
  pub upper-lower : (r : ℕ) → u.is_upper r ≡ true → u.is_lower r ≡ false
  pub digit-lower : (r : ℕ) → u.is_digit r ≡ true → u.is_lower r ≡ false
  pub digit-upper : (r : ℕ) → u.is_digit r ≡ true → u.is_upper r ≡ false
  pub mark-lower : (r : ℕ) → (u.is_punct r || u.is_symbol r) ≡ true → u.is_lower r ≡ false
  pub mark-upper : (r : ℕ) → (u.is_punct r || u.is_symbol r) ≡ true → u.is_upper r ≡ false
  pub mark-digit : (r : ℕ) → (u.is_punct r || u.is_symbol r) ≡ true → u.is_digit r ≡ false
  pub space-lower : (r : ℕ) → is_space r ≡ true → u.is_lower r ≡ false
  pub space-upper : (r : ℕ) → is_space r ≡ true → u.is_upper r ≡ false
  pub space-digit : (r : ℕ) → is_space r ≡ true → u.is_digit r ≡ false
  pub space-mark : (r : ℕ) → is_space r ≡ true → (u.is_punct r || u.is_symbol r) ≡ false

-- What the comments of `Policy` ask of a password.
pub record IsAcceptable (u : RuneClasses) (pol : Policy) (pw : String) : Type 0 where
  pub not_empty : is_empty pw ≡ false
  pub no_space : pol.disallow_space ≡ true → any is_space (codes pw) ≡ false
  pub long : pol.min_length ≤ length (codes pw)
  pub lower : pol.require_lower ≡ true → any u.is_lower (codes pw) ≡ true
  pub upper : pol.require_upper ≡ true → any u.is_upper (codes pw) ≡ true
  pub digit : pol.require_digit ≡ true → any u.is_digit (codes pw) ≡ true
  pub symbol :
      pol.require_symbol ≡ true → any (λ r. u.is_punct r || u.is_symbol r) (codes pw) ≡ true

module _ (u : RuneClasses) where
  abbrev is_mark : ℕ → Bool
  is_mark r = u.is_punct r || u.is_symbol r

  -- What the loop has seen after the code points `rs`.
  abbrev tally : List ℕ → Seen → Seen
  tally rs seen = record {
    has_lower = seen.has_lower || any u.is_lower rs;
    has_upper = seen.has_upper || any u.is_upper rs;
    has_digit = seen.has_digit || any u.is_digit rs;
    has_symbol = seen.has_symbol || any is_mark rs;
    length = seen.length + length rs;
  }

  abbrev scanned : Policy → List ℕ → Seen → Result Seen
  scanned pol rs seen =
      if pol.disallow_space && any is_space rs
      then err (sentinel password_has_space)
      else ok (tally rs seen)

  or_regroup : (a b c : Bool) → ((a || (b || false)) || c) ≡ (a || (b || c))
  or_regroup true b c = refl
  or_regroup false true c = refl
  or_regroup false false c = refl

  tally-cons :
      (r : ℕ) (rs : List ℕ) (seen : Seen) → tally rs (tally (r ∷ []) seen) ≡ tally (r ∷ rs) seen
  tally-cons r rs seen = λ i. record {
    has_lower = or_regroup seen.has_lower (u.is_lower r) (any u.is_lower rs) i;
    has_upper = or_regroup seen.has_upper (u.is_upper r) (any u.is_upper rs) i;
    has_digit = or_regroup seen.has_digit (u.is_digit r) (any u.is_digit rs) i;
    has_symbol = or_regroup seen.has_symbol (is_mark r) (any is_mark rs) i;
    length = count i;
  }
    where
      count : seen.length + 1 + length rs ≡ seen.length + suc (length rs)
      count = omega arith

  scanned_parts :
      (d here there : Bool) (a b : Seen) (g : Seen → Seen)
      → g a ≡ b
      → ((if d && (here || false) then err (sentinel password_has_space) else ok a) >>= λ s.
          if d && there then err (sentinel password_has_space) else ok (g s))
        ≡ (if d && (here || there) then err (sentinel password_has_space) else ok b)
  scanned_parts false here there a b g e = ap ok e
  scanned_parts true true there a b g e = refl
  scanned_parts true false true a b g e = refl
  scanned_parts true false false a b g e = ap ok e

  scanned-cons :
      (pol : Policy) (r : ℕ) (rs : List ℕ) (seen : Seen)
      → (scanned pol (r ∷ []) seen >>= scanned pol rs) ≡ scanned pol (r ∷ rs) seen
  scanned-cons pol r rs seen =
      scanned_parts pol.disallow_space (is_space r) (any is_space rs) (tally (r ∷ []) seen)
        (tally (r ∷ rs) seen) (tally rs) (tally-cons r rs seen)

  module _ (apart : IsDisjoint u) where
    see_lem : (pol : Policy) (r : ℕ) (seen : Seen) → see u pol r seen ≡ scanned pol (r ∷ []) seen
    unfolding see
    see_lem pol r seen = ground (
      arith,
      apart.upper-lower r,
      apart.digit-lower r,
      apart.digit-upper r,
      apart.mark-lower r,
      apart.mark-upper r,
      apart.mark-digit r,
      apart.space-lower r,
      apart.space-upper r,
      apart.space-digit r,
      apart.space-mark r,
    )

    scan_lem : (pol : Policy) (rs : List ℕ) (seen : Seen) → scan u pol rs seen ≡ scanned pol rs seen
    unfolding scan
    scan_lem pol [] seen = ground arith
    scan_lem pol (r ∷ rs) seen =
        ap₂ ◌>>=◌ (see_lem pol r seen) (fun_ext λ s. scan_lem pol rs s) ∙ scanned-cons pol r rs seen

    judge_sound :
        (pol : Policy) (rs : List ℕ)
        → judge u pol (tally rs nothing_seen) ≡ ok tt
        → (pol.min_length ≤ length rs)
          × (pol.require_lower ≡ true → any u.is_lower rs ≡ true)
          × (pol.require_upper ≡ true → any u.is_upper rs ≡ true)
          × (pol.require_digit ≡ true → any u.is_digit rs ≡ true)
          × (pol.require_symbol ≡ true → any is_mark rs ≡ true)
    unfolding judge
    judge_sound pol rs h =
        (ground arith, λ e. ground arith, λ e. ground arith, λ e. ground arith, λ e. ground arith)

    validate_sound :
        (pol : Policy) (pw : String) → validate_password u pol pw ≡ ok tt → IsAcceptable u pol pw
    unfolding validate_password
    validate_sound pol pw h =
        let (long, lower, upper, digit, symbol) =
          judge_sound pol (codes pw) (ground (arith, scan_lem pol (codes pw) nothing_seen)) in
        record {
          not_empty = ground arith;
          no_space = λ e. ground (arith, scan_lem pol (codes pw) nothing_seen);
          long = long;
          lower = lower;
          upper = upper;
          digit = digit;
          symbol = symbol;
        }

    judge_complete :
        (pol : Policy) (pw : String)
        → IsAcceptable u pol pw
        → judge u pol (tally (codes pw) nothing_seen) ≡ ok tt
    unfolding judge
    judge_complete pol pw v = ground (arith, v.lower, v.upper, v.digit, v.symbol)

    validate_complete :
        (pol : Policy) (pw : String) → IsAcceptable u pol pw → validate_password u pol pw ≡ ok tt
    unfolding validate_password
    validate_complete pol pw v =
        ground (arith, scan_lem pol (codes pw) nothing_seen, judge_complete pol pw v, v.no_space)

    -- Where no code point is in two of the classes that ValidatePassword tells apart, it returns
    -- nil exactly for the passwords that the policy allows: not empty, long enough in code
    -- points, with a code point of each required class, and with no white space if it is
    -- disallowed.
    pub validate_password_iff :
        (pol : Policy) (pw : String) → (validate_password u pol pw ≡ ok tt) ↔ IsAcceptable u pol pw
    validate_password_iff pol pw = (validate_sound pol pw, validate_complete pol pw)
