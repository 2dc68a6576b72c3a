-- ===== src/Keys/Provider/Tags.antt =====
-- The entity tags of a provider (internal/auth/jwks/provider.go) and conditional requests.
use shelf_auth.Prelude.{
  some, String_eq, ℕ_eq, refl, inl, inr, append, String, ◌≡◌, List, arith, is_empty, false, All,
  trim_space, Bool-cases, Option-cases,
}
use shelf_auth.Keys.Provider.{weak_etag, Marshal, take_bytes, Provider, refresh_keys}
use shelf_auth.Platform.{Platform}
use shelf_auth.Keys.{KeyLibrary, Entry}
use shelf_auth.Security.Encoding.{hex_encode}
use shelf_auth.Errors.{ok}
use shelf_auth.Http.Jwks.{split_commas, jwks_handler}
use shelf_auth.Http.Jwks.Fresh.{own_tag_not_fresh}
use shelf_auth.Keys.Published.{load_public_jwks, published}

refreshed_weak :
    (p : Platform) (lib : KeyLibrary) (marshal : Marshal) (walk : List Entry) (j : Provider)
    → (refresh_keys p lib marshal walk j).0 ≡ ok tt
    → (tag : String) × ((refresh_keys p lib marshal walk j).1.held.etag
        ≡ String.◌∷◌ "W" (String.◌∷◌ "/" tag))
unfolding refresh_keys load_public_jwks weak_etag append
refreshed_weak p lib marshal walk j works = elim (Bool-cases (is_empty j.keys_dir)) [
  | inl missing ↦ absurd (ground arith)
  | inr given ↦ elim (Option-cases (marshal j.alg (published lib walk))) [
    | inl failed ↦ absurd (ground arith)
    | inr (payload, made) ↦ (
      String.◌∷◌ "\"" (append (hex_encode (take_bytes 16 (p.sha256 payload))) "\""),
      rw (given, made) refl,
    )
  ]
]

-- After a refresh that succeeded with a key set whose text is not empty, a request whose validators are
-- all the tag that is served is answered with 200 and the whole key set, never with 304.
pub refreshed_not_fresh :
    (p : Platform) (lib : KeyLibrary) (marshal : Marshal) (walk : List Entry) (j : Provider)
    (inm : String)
    → (refresh_keys p lib marshal walk j).0 ≡ ok tt
    → is_empty (refresh_keys p lib marshal walk j).1.held.body ≡ false
    → All (λ v. trim_space v ≡ (refresh_keys p lib marshal walk j).1.held.etag) (split_commas inm)
    → ((jwks_handler (refresh_keys p lib marshal walk j).1.held false inm).status ≡ 200)
      × ((jwks_handler (refresh_keys p lib marshal walk j).1.held false inm).body
          ≡ some (refresh_keys p lib marshal walk j).1.held.body)
refreshed_not_fresh p lib marshal walk j inm works full own =
    let (tag, weak_tag) = refreshed_weak p lib marshal walk j works in
    own_tag_not_fresh (refresh_keys p lib marshal walk j).1.held tag inm full weak_tag own
