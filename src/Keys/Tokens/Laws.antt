-- ===== src/Keys/Tokens/Laws.antt =====
-- What internal/auth/signer relies on in lestrrat-go/jwx.
use shelf_auth.Prelude.{
  ◌∷◌, [], some, ◌/◌, String, ◌*◌, ◌≡◌, ◌≤◌, true, ◌↔◌, ◌+◌, Option, Bool, not, ◌&&◌, none, Elem,
  ◌||◌, ltb, leb,
}
use shelf_auth.Keys.Tokens.{text, Claims, TokenLibrary, acceptable_skew}
use shelf_auth.Platform.{Time, Bytes, Duration}

-- Times in a token are whole seconds.
abbrev pub in_seconds : Time → Time
in_seconds t = t / 1000000000 * 1000000000

abbrev pub seconds_of : Option Time → Option Time
seconds_of none = none
seconds_of (some t) = some (in_seconds t)

abbrev pub whole_seconds : Claims → Claims
whole_seconds c = record c {
  issued_at = seconds_of c.issued_at;
  not_before = seconds_of c.not_before;
  expires_at = seconds_of c.expires_at;
}

-- The checks of the times of a token at a time, with a skew. A time that is missing, or not after the Unix
-- epoch, is not checked.
module _ (lib : TokenLibrary) where
  unfoldable pub is_unended : Duration → Option Time → Time → Bool
  is_unended skew none at = true
  is_unended skew (some end) at = not (lib.dates end) || ltb at (end + skew)

  unfoldable pub is_begun : Duration → Option Time → Time → Bool
  is_begun skew none at = true
  is_begun skew (some start) at = not (lib.dates start) || leb start (at + skew)

  unfoldable pub in_times : Duration → Claims → Time → Bool
  in_times skew c at =
      is_unended skew c.expires_at at
      && is_begun skew c.not_before at
      && is_begun skew c.issued_at at

  abbrev is_written : Option Time → Bool
  is_written none = true
  is_written (some t) = lib.dates t

  -- The times that are set can be read back.
  abbrev pub all_written : Claims → Bool
  all_written c = is_written c.issued_at && is_written c.not_before && is_written c.expires_at

-- A signed token shows its kid, and parses with its public key to its claims, at a time that its times allow, if those
-- can be read back; jwt.Parse reads whole seconds, and validates the three times without a skew;
-- jwt.Validate compares the issuer, looks for the audience in the list, and checks the three times with
-- the skew.
pub record TokenLaws (lib : TokenLibrary) : Type 0 where
  pub dates_later : (a b : Time) → a ≤ b → lib.dates a ≡ true → lib.dates b ≡ true
  pub shows_kid :
      (alg kid t : String) (priv : Bytes) (c : Claims)
      → lib.sign alg priv kid c ≡ some t
      → lib.key_ids t ≡ some (some (text kid) ∷ [])
  pub parses :
      (kid t : String) (priv : Bytes) (c : Claims) (at : Time)
      → lib.sign "RS256" priv kid c ≡ some t
      → all_written lib (whole_seconds c) ≡ true
      → in_times lib 0 (whole_seconds c) at ≡ true
      → lib.parse (lib.public_half priv) t at ≡ some (whole_seconds c)
  pub checks_times :
      (b : Bytes) (t : String) (at : Time) (c : Claims)
      → lib.parse b t at ≡ some c
      → (whole_seconds c ≡ c) × (in_times lib 0 c at ≡ true)
  pub validates :
      (c : Claims) (issuer audience : String) (at : Time)
      → whole_seconds c ≡ c
      → (lib.validate c issuer audience acceptable_skew at ≡ true) ↔ (
          (c.issuer ≡ some issuer)
          × Elem audience c.audience
          × (in_times lib acceptable_skew c at ≡ true))
