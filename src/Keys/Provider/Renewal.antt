-- ===== src/Keys/Provider/Renewal.antt =====
-- What a provider serves over time (internal/auth/jwks/provider.go).
use shelf_auth.Prelude.{
  none, some, ◌∷◌, [], String_eq, ℕ_eq, refl, inl, inr, Option, List, String, ◌≡◌, if◌then◌else◌,
  Bool-cases, ap, is_empty, ◌∙◌, Option-cases,
}
use shelf_auth.Platform.{Platform}
use shelf_auth.Keys.{KeyLibrary, Entry}
use shelf_auth.Keys.Provider.{Marshal, Provider, refresh_keys, auto_refresh, weak_etag}
use shelf_auth.Keys.Published.{load_public_jwks, published}

module _ (p : Platform) (lib : KeyLibrary) (marshal : Marshal) where
  -- The key set of a walk, if the directory is given and the set can be serialized.
  abbrev pub payload_of : Provider → List Entry → Option String
  payload_of j walk = if is_empty j.keys_dir then none else marshal j.alg (published lib walk)

  abbrev pub first_some : Option String → Option String → Option String
  first_some (some a) b = some a
  first_some none b = b

  -- The key set of the last walk that has one.
  abbrev pub last_payload : Provider → List (List Entry) → Option String
  last_payload j [] = none
  last_payload j (walk ∷ ticks) = first_some (last_payload j ticks) (payload_of j walk)

  abbrev pub holding : Provider → Option String → Provider
  holding j none = j
  holding j (some payload) = record j {
    held = record { body = payload; etag = weak_etag p payload; max_age = j.held.max_age };
  }

  refresh_keys-holding :
      (walk : List Entry) (j : Provider)
      → (refresh_keys p lib marshal walk j).1 ≡ holding j (payload_of j walk)
  unfolding refresh_keys load_public_jwks
  refresh_keys-holding walk j = elim (Bool-cases (is_empty j.keys_dir)) [
    | inl missing ↦ rw missing refl
    | inr given ↦ elim (Option-cases (marshal j.alg (published lib walk))) [
      | inl failed ↦ rw (given, failed) refl
      | inr (payload, made) ↦ rw (given, made) refl
    ]
  ]

  holding_again :
      (j : Provider) (o : Option String) (later : Option String)
      → holding (holding j o) later ≡ holding j (first_some later o)
  holding_again j none none = refl
  holding_again j none (some b) = refl
  holding_again j (some a) none = refl
  holding_again j (some a) (some b) = refl

  last_payload-holding :
      (j : Provider) (o : Option String) (ticks : List (List Entry))
      → last_payload (holding j o) ticks ≡ last_payload j ticks
  last_payload-holding j none ticks = refl
  last_payload-holding j (some a) [] = refl
  last_payload-holding j (some a) (walk ∷ ticks) =
      ap (λ o. first_some o (payload_of j walk)) (last_payload-holding j (some a) ticks)

  -- After any ticks of its automatic refresh, a provider holds the key set of the last walk that could
  -- be serialized, with the tag of that key set, and what it held before the ticks if there was none;
  -- its directory, its algorithm and its cache age have not changed.
  pub auto_refresh-holding :
      (ticks : List (List Entry)) (j : Provider)
      → auto_refresh p lib marshal ticks j ≡ holding j (last_payload j ticks)
  unfolding auto_refresh
  auto_refresh-holding [] j = refl
  auto_refresh-holding (walk ∷ ticks) j =
      ap (auto_refresh p lib marshal ticks) (refresh_keys-holding walk j)
      ∙ auto_refresh-holding ticks (holding j (payload_of j walk))
      ∙ ap (holding (holding j (payload_of j walk)))
          (last_payload-holding j (payload_of j walk) ticks)
      ∙ holding_again j (payload_of j walk) (last_payload j ticks)
