-- ===== src/Startup/Wired.antt =====
-- What a program that has started is made of (cmd/shelf-auth/main.go).
use shelf_auth.Prelude.{
  none, some, ◌∷◌, [], String_eq, ℕ_eq, refl, inl, inr, ◌≡◌, String, ℕ, trim_space, is_empty, ◌⊎◌,
  Bool-cases, false, ◌||◌, ◌==◌, arith, Option-cases, text_eq_iff, subst, sym, ◌∙◌, Option, List,
}
use shelf_auth.Settings.{load, Config}
use shelf_auth.Pool.{open_pool, PoolLibrary, tuned}
use shelf_auth.Platform.{Platform, Bytes, Duration}
use shelf_auth.Startup.{override_kid, Libraries, Surroundings, Program, start, wire}
use shelf_auth.Errors.{Result, ok, Error, err, Result-cases, ok-injective, failure, wrap}
use shelf_auth.Keys.Signing.{Signer, set_active_kid, key_with, new_signer, reload}
use shelf_auth.Keys.Tokens.{token_signer, token_verifier}
use shelf_auth.Keys.{KeyLibrary, Entry}

load-eq-ok :
    (parsed : Result Config) {c : Config}
    → load parsed ≡ ok c
    → (parsed ≡ ok c)
      × (c.jwt_alg ≡ "RS256")
      × (is_empty (trim_space c.keys_dir) ≡ false)
      × (is_empty (trim_space c.signing_key_kid) ≡ false)
unfolding load
load-eq-ok (err e) h = absurd (ground arith)
load-eq-ok (ok d) {c} h = elim (Bool-cases (d.jwt_alg == "RS256")) [
  | inr other ↦ absurd (ground arith)
  | inl rs256 ↦
      let alg = (text_eq_iff d.jwt_alg "RS256").0 rs256 in
      let same : ok d ≡ ok c = ground arith in
      (same, subst (λ x. x.jwt_alg ≡ "RS256") (ok-injective same) alg, ground arith, ground arith)
]

-- An open pool is the one that is returned, and a pool that is not returned is not left open.
open_pool-closes :
    (lib : PoolLibrary) (conn_string : String)
    → ((pool : ℕ) × (open_pool lib conn_string ≡ (ok pool, pool ∷ [])))
      ⊎ ((why : Error) × (open_pool lib conn_string ≡ (err why, [])))
unfolding open_pool
open_pool-closes lib conn_string = elim (Bool-cases (is_empty conn_string)) [
  | inl missing ↦ inr (failure "postgres: empty connection string", rw missing refl)
  | inr given ↦ elim (Result-cases (lib.parse_config conn_string)) [
    | inl (e, refused) ↦ inr (wrap "postgres: parse config" e, rw (given, refused) refl)
    | inr (cfg, parsed) ↦ elim (Result-cases (lib.new_with_config (tuned cfg))) [
      | inl (e, refused) ↦ inr (wrap "postgres: new pool" e, rw (given, parsed, refused) refl)
      | inr (pool, made) ↦ elim (Result-cases (lib.ping pool 3000000000)) [
        | inl (e, refused) ↦ inr (wrap "postgres: ping" e, rw (given, parsed, made, refused) refl)
        | inr (done, answers) ↦ inl (pool, rw (given, parsed, made, answers) refl)
      ]
    ]
  ]
]

-- The kid that a signer starts with: the one of the configuration, or a loaded one that replaces it.
pub data IsActive (c : Config) (s : Signer) : Type 0 where
  configured : s.kid ≡ c.signing_key_kid → IsActive c s
  overridden :
      (priv : Bytes)
      → s.kid ≡ trim_space c.active_kid_runtime
      → key_with s.kid s.keys ≡ some priv
      → IsActive c s

pub record IsWired (p : Platform) (libs : Libraries) (e : Surroundings) (prog : Program)
    : Type 0 where
  pub parsed : e.parsed ≡ ok prog.config
  pub keys_dir : is_empty (trim_space prog.config.keys_dir) ≡ false
  pub signing_key_kid : is_empty (trim_space prog.config.signing_key_kid) ≡ false
  pub opened : open_pool libs.pool prog.config.database_url ≡ (ok prog.pool, prog.pool ∷ [])
  pub alg : prog.signer.alg ≡ "RS256"
  pub issuer : prog.signer.issuer ≡ prog.config.jwt_iss
  pub audience : prog.signer.audience ≡ prog.config.jwt_aud
  pub active : IsActive prog.config prog.signer
  pub signs : prog.server.service.signer ≡ token_signer p libs.tokens prog.signer
  pub verifies : prog.server.verifier ≡ token_verifier p libs.tokens prog.signer

record IsOverridden (c : Config) (s s' : Signer) : Type 0 where
  alg : s'.alg ≡ s.alg
  issuer : s'.issuer ≡ s.issuer
  audience : s'.audience ≡ s.audience
  active : IsActive c s'

override_kid-active :
    (c : Config) (s : Signer) → s.kid ≡ c.signing_key_kid → IsOverridden c s (override_kid c s)
unfolding override_kid set_active_kid
override_kid-active c s start =
    let kid = trim_space c.active_kid_runtime in
    elim (Bool-cases (is_empty kid || kid == c.signing_key_kid)) [
      | inl same ↦
          let same : override_kid c s ≡ s = ground arith in
          subst (IsOverridden c s) (sym same)
            (record { alg = refl; issuer = refl; audience = refl; active = configured start })
      | inr other ↦ elim (Option-cases (key_with kid s.keys)) [
        | inl missing ↦
            let same : override_kid c s ≡ s = ground arith in
            subst (IsOverridden c s) (sym same)
              (record { alg = refl; issuer = refl; audience = refl; active = configured start })
        | inr (priv, held) ↦
            let switched : override_kid c s ≡ record s { kid = kid } = ground arith in
            subst (IsOverridden c s) (sym switched) (record {
              alg = refl;
              issuer = refl;
              audience = refl;
              active = overridden priv refl held;
            })
      ]
    ]

new_signer-parts :
    (lib : KeyLibrary) (keys_dir kid alg : String) (ttl : Duration) (issuer audience : String)
    (listing : Option (List Entry))
    → ((new_signer lib keys_dir kid alg ttl issuer audience listing).alg ≡ alg)
      × ((new_signer lib keys_dir kid alg ttl issuer audience listing).issuer ≡ issuer)
      × ((new_signer lib keys_dir kid alg ttl issuer audience listing).audience ≡ audience)
      × ((new_signer lib keys_dir kid alg ttl issuer audience listing).kid ≡ kid)
unfolding new_signer reload
new_signer-parts lib keys_dir kid alg ttl issuer audience none = (refl, refl, refl, refl)
new_signer-parts lib keys_dir kid alg ttl issuer audience (some files) = (refl, refl, refl, refl)

module _ (p : Platform) (libs : Libraries) (e : Surroundings) where
  wire-IsWired :
      (c : Config) (pool : ℕ)
      → load e.parsed ≡ ok c
      → open_pool libs.pool c.database_url ≡ (ok pool, pool ∷ [])
      → IsWired p libs e (wire p libs e c pool)
  wire-IsWired c pool loaded opened =
      let (parsed, alg, keys_dir, kid) = load-eq-ok e.parsed loaded in
      let (made_alg, made_issuer, made_audience, made_kid) =
        new_signer-parts libs.keys c.keys_dir c.signing_key_kid c.jwt_alg c.access_ttl c.jwt_iss
          c.jwt_aud e.listing in
      let s =
        new_signer libs.keys c.keys_dir c.signing_key_kid c.jwt_alg c.access_ttl c.jwt_iss c.jwt_aud
          e.listing in
      let o = override_kid-active c s made_kid in
      record {
        parsed = parsed;
        keys_dir = keys_dir;
        signing_key_kid = kid;
        opened = opened;
        alg = o.alg ∙ made_alg ∙ alg;
        issuer = o.issuer ∙ made_issuer;
        audience = o.audience ∙ made_audience;
        active = o.active;
        signs = refl;
        verifies = refl;
      }

  -- A program that starts has a configuration with a directory of keys and a kid, an open pool, and a
  -- signer for RS256 with the issuer and audience of the configuration, which both the service and the
  -- middleware use; its kid is the configured one, or the one of ACTIVE_KID_RUNTIME, without white
  -- space around it, whose key is then loaded.
  pub start-eq-ok : (prog : Program) → start p libs e ≡ ok prog → IsWired p libs e prog
  unfolding start
  start-eq-ok prog h = elim (Result-cases (load e.parsed)) [
    | inl (why, refused) ↦ absurd (ground arith)
    | inr (c, loaded) ↦ elim (open_pool-closes libs.pool c.database_url) [
      | inr (why, refused) ↦ absurd (ground arith)
      | inl (pool, opened) ↦
          let wired : wire p libs e c pool ≡ prog =
            ok-injective (sym (rw (loaded, opened) refl) ∙ h) in
          subst (IsWired p libs e) wired (wire-IsWired c pool loaded opened)
    ]
  ]
