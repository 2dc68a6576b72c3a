-- ===== src/Keys/Tokens.antt =====
-- SignAccess and VerifyAccess of internal/auth/signer/signer.go: the access tokens.
pub mod Laws
pub mod RoundTrip
pub mod Accepted
use shelf_auth.Prelude.{
  ◌∷◌, [], ℕ_eq, String_eq, none, some, String, List, Option, if◌then◌else◌, Bool, is_empty, ◌+◌,
}
use shelf_auth.Exec.{◌>>=◌, ◌>>◌, Exec, lift, now, pure}
use shelf_auth.Platform.{Bytes, Duration, Platform, Time}
use shelf_auth.Keys.Signing.{Signer, signing_key, key_with}
use shelf_auth.Tokens.{AccessClaims, TokenSigner, TokenVerifier}
use shelf_auth.Errors.{Result, err, failure, ok, require}

-- A claim of a parsed token.
pub data ClaimValue : Type 0 where
  text : String → ClaimValue
  other : ClaimValue

-- Every claim may be missing, and a token may be for several audiences.
pub record Claims : Type 0 where
  pub issuer : Option String
  pub audience : List String
  pub issued_at : Option Time
  pub not_before : Option Time
  pub expires_at : Option Time
  pub subject : Option ClaimValue
  pub email : Option ClaimValue
  pub uid : Option ClaimValue

-- The functions of lestrrat-go/jwx that the signer calls, and the public half of a private key.
pub record TokenLibrary : Type 0 where
  pub public_half : Bytes → Bytes
  -- jwt.Sign with an algorithm, a private key and a kid
  pub sign : String → Bytes → String → Claims → Option String
  -- jws.Parse: the kid in the protected header of each signature
  pub key_ids : String → Option (List (Option ClaimValue))
  -- whether a time is after the Unix epoch: jwt.Parse reads no earlier NumericDate, and the validation passes
  -- over the epoch itself as a time that is not set
  pub dates : Time → Bool
  -- jwt.Parse with RS256 and a public key, which checks the signature and the times at a time
  pub parse : Bytes → String → Time → Option Claims
  -- jwt.Validate with an issuer, an audience and an acceptable skew, at a time
  pub validate : Claims → String → String → Duration → Time → Bool

abbrev pub acceptable_skew : Duration
acceptable_skew = 5000000000

-- A claim that is only set if its text is not empty.
abbrev pub unless_empty : String → Option ClaimValue
unless_empty s = if is_empty s then none else some (text s)

abbrev pub access_token_claims : Signer → AccessClaims → Time → Duration → Claims
access_token_claims s c at ttl = record {
  issuer = some s.issuer;
  audience = s.audience ∷ [];
  issued_at = some at;
  not_before = some at;
  expires_at = some (at + ttl);
  subject = some (text c.user_id);
  email = unless_empty c.email;
  uid = some (text c.user_id);
}

abbrev pub given {ℓ} : {A : Type ℓ} → String → Option A → Result A
given why none = err (failure why)
given why (some a) = ok a

-- The kid of the first signature.
abbrev pub first_kid : List (Option ClaimValue) → Result String
first_kid [] = err (failure "no signatures")
first_kid (none ∷ rest) = err (failure "missing kid")
first_kid (some other ∷ rest) = err (failure "invalid kid type")
first_kid (some (text kid) ∷ rest) = ok kid

abbrev pub subject_of : Option ClaimValue → Result String
subject_of none = err (failure "missing sub")
subject_of (some other) = err (failure "invalid sub")
subject_of (some (text user_id)) =
    if is_empty user_id then err (failure "invalid sub") else ok user_id

-- The zero value if the claim is missing or no text.
abbrev pub text_of_claim : Option ClaimValue → String
text_of_claim none = ""
text_of_claim (some other) = ""
text_of_claim (some (text s)) = s

module _ (p : Platform) (lib : TokenLibrary) (s : Signer) where
  unfoldable pub sign_access : AccessClaims → Duration → Exec (String × Time)
  sign_access c ttl = do
    (kid, priv) ← lift (signing_key s)
    at ← now p
    signed ← lift (given "sign" (lib.sign s.alg priv kid (access_token_claims s c at ttl)))
    pure (signed, at + ttl)

  unfoldable pub verify_access : String → Exec AccessClaims
  verify_access token = do
    ids ← lift (given "parse" (lib.key_ids token))
    kid ← lift (first_kid ids)
    priv ← lift (given "unknown kid" (key_with kid s.keys))
    at ← now p
    tok ← lift (given "parse" (lib.parse (lib.public_half priv) token at))
    later ← now p
    lift (require (lib.validate tok s.issuer s.audience acceptable_skew later) (failure "validate"))
    user_id ← lift (subject_of tok.subject)
    pure (record { user_id = user_id; email = text_of_claim tok.email })

-- The signer as the service sees it.
abbrev pub token_signer : Platform → TokenLibrary → Signer → TokenSigner
token_signer p lib s = record { sign_access = sign_access p lib s }

-- The signer as the middleware sees it.
abbrev pub token_verifier : Platform → TokenLibrary → Signer → TokenVerifier
token_verifier p lib s = record { verify_access = verify_access p lib s }
