-- ===== src/Tests/OneToken.antt =====
-- A concrete token library that signs just one set of claims, and its laws.
use shelf_auth.Keys.Tokens.{other, acceptable_skew}
use shelf_auth.Prelude.{
  none, some, ◌∷◌, [], String_eq, ℕ_eq, refl, Option, Bool, ◌≡◌, true, ◌==◌, if◌then◌else◌, false,
  arith, ◌&&◌, text_eq_iff, ltb, ◌+◌, leb, ap, String, ◌↔◌, subst, HasEquality, Elem, List,
  and-eq-true, sym, ap₂, ◌||◌, Bool-cases, inl, ◌∙◌, inr,
}
use shelf_auth.Keys.Tokens.{Claims, ClaimValue, TokenLibrary, text}
use shelf_auth.Keys.Tokens.Laws.{whole_seconds, TokenLaws, is_unended, is_begun, in_times}
use shelf_auth.Platform.{Bytes, Duration, Time}
use shelf_auth.Keys.Tokens.RoundTrip.{same_seconds}

abbrev same_value : Option ClaimValue → Option ClaimValue → Bool
same_value none none = true
same_value none (some d) = false
same_value (some c) none = false
same_value (some other) (some other) = true
same_value (some other) (some (text t)) = false
same_value (some (text s)) (some other) = false
same_value (some (text s)) (some (text t)) = s == t

same_value-eq : (a b : Option ClaimValue) → same_value a b ≡ true → a ≡ b
same_value-eq none none h = refl
same_value-eq none (some d) h = absurd (ground arith)
same_value-eq (some c) none h = absurd (ground arith)
same_value-eq (some other) (some other) h = refl
same_value-eq (some other) (some (text t)) h = absurd (ground arith)
same_value-eq (some (text s)) (some other) h = absurd (ground arith)
same_value-eq (some (text s)) (some (text t)) h = ap (λ x. some (text x)) ((text_eq_iff s t).0 h)

module _ {A : Type 0} ⦃equal : HasEquality A⦄ where
  abbrev same_option : Option A → Option A → Bool
  same_option none none = true
  same_option none (some b) = false
  same_option (some a) none = false
  same_option (some a) (some b) = equal.test a b

  same_option-eq : (a b : Option A) → same_option a b ≡ true → a ≡ b
  same_option-eq none none h = refl
  same_option-eq none (some b) h = absurd (ground arith)
  same_option-eq (some a) none h = absurd (ground arith)
  same_option-eq (some a) (some b) h = ap some ((equal.decides a b).0 h)

  abbrev same_list : List A → List A → Bool
  same_list [] [] = true
  same_list [] (b ∷ bs) = false
  same_list (a ∷ xs) [] = false
  same_list (a ∷ xs) (b ∷ bs) = equal.test a b && same_list xs bs

  same_list-eq : (xs ys : List A) → same_list xs ys ≡ true → xs ≡ ys
  same_list-eq [] [] h = refl
  same_list-eq [] (b ∷ bs) h = absurd (ground arith)
  same_list-eq (a ∷ xs) [] h = absurd (ground arith)
  same_list-eq (a ∷ xs) (b ∷ bs) h =
      let (first, rest) = and-eq-true _ _ h in
      ap₂ (λ x y. x ∷ y) ((equal.decides a b).0 first) (same_list-eq xs bs rest)

  abbrev contains : A → List A → Bool
  contains a [] = false
  contains a (x ∷ xs) = equal.test x a || contains a xs

  found_of_contains : (a : A) (xs : List A) → contains a xs ≡ true → Elem a xs
  found_of_contains a [] h = absurd (ground arith)
  found_of_contains a (x ∷ xs) h = elim (Bool-cases (equal.test x a)) [
    | inl same ↦ inl ((equal.decides x a).0 same)
    | inr differs ↦ inr (found_of_contains a xs (ground arith))
  ]

  contains_of_found : (a : A) (xs : List A) → Elem a xs → contains a xs ≡ true
  contains_of_found a [] e = absurd e
  contains_of_found a (x ∷ xs) (inl same) = rw ((equal.decides x a).1 same) refl
  contains_of_found a (x ∷ xs) (inr later) =
      let found = contains_of_found a xs later in ground arith

abbrev same_claims : Claims → Claims → Bool
same_claims c d =
    (same_option c.issuer d.issuer && same_list c.audience d.audience)
    && (same_option c.issued_at d.issued_at
        && same_option c.not_before d.not_before
        && same_option c.expires_at d.expires_at)
    && (same_value c.subject d.subject && same_value c.email d.email && same_value c.uid d.uid)

claims_path :
    (c d : Claims)
    → c.issuer ≡ d.issuer
    → c.audience ≡ d.audience
    → c.issued_at ≡ d.issued_at
    → c.not_before ≡ d.not_before
    → c.expires_at ≡ d.expires_at
    → c.subject ≡ d.subject
    → c.email ≡ d.email
    → c.uid ≡ d.uid
    → c ≡ d
claims_path c d issuer audience issued before end subject email uid = cc

same_claims-eq : (c d : Claims) → same_claims c d ≡ true → c ≡ d
same_claims-eq c d h =
    claims_path c d (same_option-eq c.issuer d.issuer (ground arith))
      (same_list-eq c.audience d.audience (ground arith))
      (same_option-eq c.issued_at d.issued_at (ground arith))
      (same_option-eq c.not_before d.not_before (ground arith))
      (same_option-eq c.expires_at d.expires_at (ground arith))
      (same_value-eq c.subject d.subject (ground arith))
      (same_value-eq c.email d.email (ground arith)) (same_value-eq c.uid d.uid (ground arith))

abbrev ends : Duration → Option Time → Time → Bool
ends skew none at = true
ends skew (some end) at = ltb at (end + skew)

abbrev starts : Duration → Option Time → Time → Bool
starts skew none at = true
starts skew (some start) at = leb start (at + skew)

-- The checks of the times; every time counts as one after the epoch.
abbrev in_time : Duration → Claims → Time → Bool
in_time skew c at =
    ends skew c.expires_at at && starts skew c.not_before at && starts skew c.issued_at at

abbrev pub only : Claims → TokenLibrary
only c = record {
  public_half = λ priv. priv;
  sign =
      λ alg priv kid d. if alg == "RS256" && kid == "k1" && same_claims d c then some "t" else none;
  key_ids = λ t. if t == "t" then some (some (text "k1") ∷ []) else none;
  dates = λ t. true;
  parse = λ key t at.
      if t == "t" && in_time 0 (whole_seconds c) at then some (whole_seconds c) else none;
  validate = λ d issuer audience skew at.
      same_option d.issuer (some issuer) && (contains audience d.audience && in_time skew d at);
}

unended-only :
    (d : Claims) (skew : Duration) (o : Option Time) (at : Time)
    → is_unended (only d) skew o at ≡ ends skew o at
unfolding is_unended
unended-only d skew none at = refl
unended-only d skew (some t) at = refl

begun-only :
    (d : Claims) (skew : Duration) (o : Option Time) (at : Time)
    → is_begun (only d) skew o at ≡ starts skew o at
unfolding is_begun
begun-only d skew none at = refl
begun-only d skew (some t) at = refl

in_times-only :
    (d c : Claims) (skew : Duration) (at : Time) → in_times (only d) skew c at ≡ in_time skew c at
unfolding in_times
in_times-only d c skew at =
    rw
      (
        unended-only d skew c.expires_at at,
        begun-only d skew c.not_before at,
        begun-only d skew c.issued_at at,
      )
      refl

only-sign-eq-some :
    (d : Claims) (alg kid t : String) (priv : Bytes) (c : Claims)
    → (only d).sign alg priv kid c ≡ some t
    → (kid ≡ "k1") × (t ≡ "t") × (c ≡ d)
only-sign-eq-some d alg kid t priv c h =
    let kind : (kid == "k1") ≡ true = ground arith in
    let same : same_claims c d ≡ true = ground arith in
    ((text_eq_iff kid "k1").0 kind, ground arith, same_claims-eq c d same)

only-validates :
    (d c : Claims) (issuer audience : String) (skew : Duration) (at : Time)
    → ((only d).validate c issuer audience skew at ≡ true)
      ↔ ((c.issuer ≡ some issuer) × Elem audience c.audience × (in_times (only d) skew c at ≡ true))
only-validates d c issuer audience skew at = (
  (λ h.
      let (named, rest) = and-eq-true _ _ h in
      let (heard, timely) = and-eq-true _ _ rest in
      (
        same_option-eq c.issuer (some issuer) named,
        found_of_contains audience c.audience heard,
        in_times-only d c skew at ∙ timely,
      )),
  (λ h.
      let (named, heard, timely) = h in
      rw
        (
          named,
          (text_eq_iff issuer issuer).1 refl,
          contains_of_found audience c.audience heard,
          sym (in_times-only d c skew at) ∙ timely,
        )
        refl),
)

only-parses :
    (d : Claims) (key : Bytes) (at : Time)
    → in_times (only d) 0 (whole_seconds d) at ≡ true
    → (only d).parse key "t" at ≡ some (whole_seconds d)
only-parses d key at h = rw (sym (in_times-only d (whole_seconds d) 0 at) ∙ h) refl

only-checks_times :
    (d : Claims) (key : Bytes) (t : String) (at : Time) (c : Claims)
    → (only d).parse key t at ≡ some c
    → (whole_seconds c ≡ c) × (in_times (only d) 0 c at ≡ true)
only-checks_times d key t at c h =
    let timely : in_time 0 (whole_seconds d) at ≡ true = ground arith in
    let same : whole_seconds d ≡ c = ground arith in
    (
      subst (λ x. whole_seconds x ≡ x) same (same_seconds d),
      subst (λ x. in_times (only d) 0 x at ≡ true) same
          (in_times-only d (whole_seconds d) 0 at ∙ timely),
    )

pub only_laws : (d : Claims) → TokenLaws (only d)
only_laws d = record {
  dates_later = λ a b h e. refl;
  shows_kid = λ alg kid t priv c h.
      let (k, s, e) = only-sign-eq-some d alg kid t priv c h in rw (k, s) refl;
  parses = λ kid t priv c at h read timely.
      let (k, s, e) = only-sign-eq-some d "RS256" kid t priv c h in
      rw (s, e)
        (only-parses d priv at
          (subst (λ x. in_times (only d) 0 (whole_seconds x) at ≡ true) e timely));
  checks_times = only-checks_times d;
  validates = λ c issuer audience at whole. only-validates d c issuer audience acceptable_skew at;
}
