-- ===== src/Keys/Tokens/RoundTrip.antt =====
-- A token that SignAccess made, given to VerifyAccess (internal/auth/signer/signer.go).
use shelf_auth.Prelude.{
  ◌∷◌, [], none, some, refl, String, ◌≡◌, Option, arith, ◌+◌, suc, true, is_empty, false, ◌≤◌, ◌<◌,
  subst, sym, ◌∙◌, ap, inl, leb, ltb,
}
use shelf_auth.Keys.Tokens.{
  text, text_of_claim, TokenLibrary, unless_empty, sign_access, verify_access, token_signer, Claims,
  access_token_claims, acceptable_skew,
}
use shelf_auth.Platform.{Platform, Duration, Time, Bytes}
use shelf_auth.Keys.Signing.{Signer, signing_key, key_with}
use shelf_auth.Keys.Tokens.Laws.{
  TokenLaws, in_seconds, whole_seconds, seconds_of, all_written, in_times, is_unended, is_begun,
}
use shelf_auth.Tokens.{AccessClaims, SignerLaws}
use shelf_auth.Exec.{◌>>=◌, World, next}
use shelf_auth.Errors.{ok}

in_seconds_idem : (t : Time) → in_seconds (in_seconds t) ≡ in_seconds t
in_seconds_idem t = omega arith

seconds_of_idem : (o : Option Time) → seconds_of (seconds_of o) ≡ seconds_of o
seconds_of_idem none = refl
seconds_of_idem (some t) = ap some (in_seconds_idem t)

pub same_seconds : (c : Claims) → whole_seconds (whole_seconds c) ≡ whole_seconds c
same_seconds c =
    rw (seconds_of_idem c.issued_at, seconds_of_idem c.not_before, seconds_of_idem c.expires_at)
      refl

text_of_unless_empty : (e : String) → text_of_claim (unless_empty e) ≡ e
text_of_unless_empty String.[] = refl
text_of_unless_empty (String.◌∷◌ c s) = refl

module _ (p : Platform) (lib : TokenLibrary) where
  -- What a signature that succeeds was made of.
  pub record IsSigned (s : Signer) (c : AccessClaims) (ttl : Duration) (at : Time) (t : String)
      (exp : Time) : Type 0 where
    pub priv : Bytes
    pub held : key_with s.kid s.keys ≡ some priv
    pub made : lib.sign s.alg priv s.kid (access_token_claims s c at ttl) ≡ some t
    pub end : exp ≡ at + ttl

  IsSigned-of_key :
      (s : Signer) (c : AccessClaims) (ttl : Duration) (w : World) (t : String) (exp : Time)
      (o : Option Bytes)
      → key_with s.kid s.keys ≡ o
      → (sign_access p lib s c ttl w).0 ≡ ok (t, exp)
      → IsSigned s c ttl (p.clock w.tick) t exp
  unfolding sign_access signing_key ◌>>=◌
  IsSigned-of_key s c ttl w t exp none e h = absurd (ground arith)
  IsSigned-of_key s c ttl w t exp (some priv) e h = record {
    priv = priv;
    held = e;
    made = ground arith;
    end = ground arith;
  }

  pub sign_access-eq-ok :
      (s : Signer) (c : AccessClaims) (ttl : Duration) (w : World) (t : String) (exp : Time)
      → (sign_access p lib s c ttl w).0 ≡ ok (t, exp)
      → IsSigned s c ttl (p.clock w.tick) t exp
  sign_access-eq-ok s c ttl w t exp h =
      IsSigned-of_key s c ttl w t exp (key_with s.kid s.keys) refl h

  sign_access-keeps_db :
      (s : Signer) (c : AccessClaims) (ttl : Duration) (w : World)
      → (sign_access p lib s c ttl w).1.db ≡ w.db
  unfolding sign_access ◌>>=◌
  sign_access-keeps_db s c ttl w = ground arith

  -- The signer is one that leaves the database alone.
  pub token_signer-SignerLaws : (s : Signer) → SignerLaws (token_signer p lib s)
  token_signer-SignerLaws s = record { keeps_db = sign_access-keeps_db s }

  module _ (laws : TokenLaws lib) where
    verified :
        (s : Signer) (t kid : String) (priv : Bytes) (tok : Claims) (user_id : String) (v : World)
        → lib.key_ids t ≡ some (some (text kid) ∷ [])
        → key_with kid s.keys ≡ some priv
        → lib.parse (lib.public_half priv) t (p.clock v.tick) ≡ some tok
        → lib.validate tok s.issuer s.audience acceptable_skew (p.clock (suc v.tick)) ≡ true
        → tok.subject ≡ some (text user_id)
        → is_empty user_id ≡ false
        → verify_access p lib s t v
          ≡ (ok (record { user_id = user_id; email = text_of_claim tok.email }), next (next v))
    unfolding verify_access ◌>>=◌
    verified s t kid priv tok user_id v ids held parsed valid subject named =
        rw (ids, held, parsed, valid, subject, named) refl

    -- The claims of an access token can be read back, and their times allow every time from the signing to the
    -- end in whole seconds.
    written :
        (s : Signer) (c : AccessClaims) (at : Time) (ttl : Duration)
        → lib.dates (in_seconds at) ≡ true
        → all_written lib (whole_seconds (access_token_claims s c at ttl)) ≡ true
    written s c at ttl dated =
        rw (dated, laws.dates_later (in_seconds at) (in_seconds (at + ttl)) (omega arith) dated)
          refl

    allows :
        (s : Signer) (c : AccessClaims) (at : Time) (ttl skew : Duration) (now : Time)
        → at ≤ now
        → now < in_seconds (at + ttl)
        → in_times lib skew (whole_seconds (access_token_claims s c at ttl)) now ≡ true
    unfolding in_times is_unended is_begun
    allows s c at ttl skew now after before =
        let started : leb (in_seconds at) (now + skew) ≡ true = ground arith in
        let unended : ltb now (in_seconds (at + ttl) + skew) ≡ true = ground arith in
        rw (started, unended) (ground arith)

    pub verify_signed :
        (s s' : Signer) (c : AccessClaims) (ttl : Duration) (w v : World) (t : String) (exp : Time)
        → s.alg ≡ "RS256"
        → is_empty c.user_id ≡ false
        → (sign_access p lib s c ttl w).0 ≡ ok (t, exp)
        → key_with s.kid s'.keys ≡ key_with s.kid s.keys
        → s'.issuer ≡ s.issuer
        → s'.audience ≡ s.audience
        → p.clock w.tick ≤ p.clock v.tick
        → p.clock v.tick < in_seconds exp
        → p.clock w.tick ≤ p.clock (suc v.tick)
        → p.clock (suc v.tick) < in_seconds exp
        → lib.dates (in_seconds (p.clock w.tick)) ≡ true
        → verify_access p lib s' t v ≡ (ok c, next (next v))
    verify_signed s s' c ttl w v t exp alg named signs kept same_issuer same_audience after before
          after' before' dated =
        let m = sign_access-eq-ok s c ttl w t exp signs in
        let claims = access_token_claims s c (p.clock w.tick) ttl in
        let tok = whole_seconds claims in
        let ends = subst (λ x. p.clock v.tick < in_seconds x) m.end before in
        let ends' = subst (λ x. p.clock (suc v.tick) < in_seconds x) m.end before' in
        let made = subst (λ a. lib.sign a m.priv s.kid claims ≡ some t) alg m.made in
        let valid =
          (laws.validates tok s'.issuer s'.audience (p.clock (suc v.tick)) (same_seconds claims)).1
            (
              ap some (sym same_issuer),
              inl (sym same_audience),
              allows s c (p.clock w.tick) ttl acceptable_skew (p.clock (suc v.tick)) after' ends',
            ) in
        let timely = allows s c (p.clock w.tick) ttl 0 (p.clock v.tick) after ends in
        let parsed =
          laws.parses s.kid t m.priv claims (p.clock v.tick) made
            (written s c (p.clock w.tick) ttl dated) timely in
        let run =
          verified s' t s.kid m.priv tok c.user_id v
            (laws.shows_kid s.alg s.kid t m.priv claims m.made) (kept ∙ m.held) parsed valid refl
            named in
        run ∙ ap (λ e. (ok (record c { email = e }), next (next v))) (text_of_unless_empty c.email)

    -- A token that was signed is accepted, with the claims that were signed, by a signer that
    -- holds the key under the signing kid, with the same issuer and audience, at times from the
    -- signing until the end of the token in whole seconds; which kid signs there does not matter.
    -- The algorithm is RS256, the user id not empty, the signing after the Unix epoch, and the end that was reported lies the TTL
    -- after the signing. The token library signs, parses and validates as documented.
    pub verify_access-sign_access :
        (s s' : Signer) (c : AccessClaims) (ttl : Duration) (w v : World) (t : String) (exp : Time)
        → s.alg ≡ "RS256"
        → is_empty c.user_id ≡ false
        → (sign_access p lib s c ttl w).0 ≡ ok (t, exp)
        → key_with s.kid s'.keys ≡ key_with s.kid s.keys
        → s'.issuer ≡ s.issuer
        → s'.audience ≡ s.audience
        → p.clock w.tick ≤ p.clock v.tick
        → p.clock v.tick < in_seconds exp
        → p.clock w.tick ≤ p.clock (suc v.tick)
        → p.clock (suc v.tick) < in_seconds exp
        → lib.dates (in_seconds (p.clock w.tick)) ≡ true
        → ((verify_access p lib s' t v).0 ≡ ok c) × (exp ≡ p.clock w.tick + ttl)
    verify_access-sign_access s s' c ttl w v t exp alg named signs kept same_issuer same_audience
          after before after' before' dated =
        (
          ap (λ x. x.0)
              (verify_signed s s' c ttl w v t exp alg named signs kept same_issuer same_audience
                after before after' before' dated),
          (sign_access-eq-ok s c ttl w t exp signs).end,
        )
