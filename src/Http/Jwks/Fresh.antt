-- ===== src/Http/Jwks/Fresh.antt =====
-- Conditional requests for the key set (internal/httpserver/handlers/jwks.go).
use shelf_auth.Prelude.{
  ℕ_eq, String_eq, some, inl, inr, String, ◌==◌, List, ◌≡◌, All, false, trim_space, is_empty,
  Bool-cases, any, arith, ap, ◌∷◌, subst, length, [], sym, codes, refl, text_eq_iff,
}
use shelf_auth.Http.Jwks.{trim_weak, jwks_handler, current, KeySet, split_commas, matches_tag}

abbrev weak : String → String
weak tag = String.◌∷◌ "W" (String.◌∷◌ "/" tag)

longer : (tag : String) → (tag == weak tag) ≡ false
longer tag = elim (Bool-cases (tag == weak tag)) [
  | inr other ↦ other
  | inl same ↦
      absurd (omega (arith, ap (λ s. length (codes s)) ((text_eq_iff tag (weak tag)).0 same)))
]

stale :
    (tag : String) (parts : List String)
    → All (λ v. trim_space v ≡ weak tag) parts
    → any (matches_tag (weak tag)) parts ≡ false
unfolding trim_weak
stale tag [] h = refl
stale tag (v ∷ parts) (same, rest) = rw (same, longer tag) (stale tag parts rest)

-- A request whose validators are all the entity tag of the published key set is answered with 200
-- and the whole key set, never with 304, where the tag begins with W/, as the provider's do.
pub own_tag_not_fresh :
    (k : KeySet) (tag inm : String)
    → is_empty k.body ≡ false
    → k.etag ≡ String.◌∷◌ "W" (String.◌∷◌ "/" tag)
    → All (λ v. trim_space v ≡ k.etag) (split_commas inm)
    → ((jwks_handler k false inm).status ≡ 200) × ((jwks_handler k false inm).body ≡ some k.body)
unfolding jwks_handler current
own_tag_not_fresh k tag inm full weak_tag own =
    let none_match : any (matches_tag k.etag) (split_commas inm) ≡ false =
      subst (λ e. any (matches_tag e) (split_commas inm) ≡ false) (sym weak_tag)
        (stale tag (split_commas inm)
          (subst (λ e. All (λ v. trim_space v ≡ e) (split_commas inm)) weak_tag own)) in
    (ground arith, ground arith)
