-- ===== src/Tests/Directories.antt =====
-- A directory with one key, and a published key set.
use shelf_auth.Prelude.{
  some, none, List, codes, true, false, [], ◌∷◌, String, ◌≡◌, refl, Elem, ℕ, suc, zero, is_empty,
  trim_space, append, All,
}
use shelf_auth.Keys.{KeyLibrary, Entry, load_key, ends_in_pem, trim_extension}
use shelf_auth.Keys.Signing.{Signer, reload, signing_key}
use shelf_auth.Platform.{Bytes, Platform}
use shelf_auth.Keys.Published.{load_public_jwks}
use shelf_auth.Errors.{ok}
use shelf_auth.Keys.Consistency.{signing_key-published}
use shelf_auth.Http.Jwks.{KeySet, jwks_handler, split_commas}
use shelf_auth.Keys.Provider.{Marshal, Provider, auto_refresh, refresh_keys, weak_etag}
use shelf_auth.Samples.{sample_platform}
use shelf_auth.Keys.Provider.Renewal.{holding, last_payload, auto_refresh-holding}
use shelf_auth.Keys.Provider.Tags.{refreshed_not_fresh}
use shelf_auth.Security.Encoding.{hex_encode, hex_digit}

abbrev pub sample_library : KeyLibrary
sample_library = record {
  read_file = λ path. some (codes path);
  pem_block = λ b. some b;
  pkcs1 = λ b. none;
  pkcs8 = λ b. some (some b);
  public_key = λ k. some (0 ∷ k);
}

abbrev pub top_entry : Entry
top_entry = record { name = "keys"; path = "keys"; is_dir = true; failed = false }

abbrev pub key_file : Entry
key_file = record { name = "k1.PEM"; path = "p"; is_dir = false; failed = false }

abbrev pub notes_file : Entry
notes_file = record { name = "notes.txt"; path = "n"; is_dir = false; failed = false }

abbrev k1_signer : Signer
k1_signer = record {
  keys_dir = "keys";
  alg = "RS256";
  ttl = 15;
  kid = "k1";
  issuer = "i";
  audience = "a";
  keys = [];
  ready = false;
}

abbrev reloaded : Signer
reloaded = (reload sample_library (some (key_file ∷ notes_file ∷ [])) k1_signer).1

signs_with_k1 : signing_key reloaded ≡ ok ("k1", b'p' ∷ [])
unfolding reload signing_key load_key ends_in_pem trim_extension
signs_with_k1 = refl

signing_key-published_example :
    (ks : List (String × Bytes)) × (load_public_jwks sample_library "keys"
        (top_entry ∷ key_file ∷ notes_file ∷ [])
      ≡ ok ks)
    × Elem ("k1", 0 ∷ b'p' ∷ []) ks
signing_key-published_example =
    signing_key-published sample_library "keys" "k1" top_entry (key_file ∷ notes_file ∷ [])
      k1_signer (b'p' ∷ []) (0 ∷ b'p' ∷ []) refl (refl, (refl, tt)) signs_with_k1 refl

abbrev pub key_set : KeySet
key_set = record { body = "{}"; etag = "W/\"ab\""; max_age = 0 }

abbrev served_walk : List Entry
served_walk = top_entry ∷ key_file ∷ []

abbrev count_keys : Marshal
count_keys alg [] = none
count_keys alg (k ∷ ks) = some "{}"

abbrev k1_provider : Provider
k1_provider = record { keys_dir = "keys"; alg = "RS256"; held = key_set }

auto_refresh-holding_example :
    auto_refresh sample_platform sample_library count_keys (served_walk ∷ [] ∷ []) k1_provider
    ≡ holding sample_platform sample_library count_keys k1_provider
        (last_payload sample_platform sample_library count_keys k1_provider (served_walk ∷ [] ∷ []))
auto_refresh-holding_example =
    auto_refresh-holding sample_platform sample_library count_keys (served_walk ∷ [] ∷ [])
      k1_provider

abbrev zeros : ℕ → Bytes
zeros zero = []
zeros (suc n) = 0 ∷ zeros n

abbrev pub wide_platform : Platform
wide_platform = record sample_platform { sha256 = λ s. zeros 32; hmac_sha256 = λ key s. zeros 32 }

refreshes :
    (refresh_keys sample_platform sample_library count_keys served_walk k1_provider).0 ≡ ok tt
unfolding refresh_keys load_public_jwks load_key ends_in_pem
refreshes = refl

served :
    is_empty
      (refresh_keys sample_platform sample_library count_keys served_walk k1_provider).1.held.body
    ≡ false
unfolding refresh_keys load_public_jwks load_key ends_in_pem
served = refl

own_tags :
    All
      (λ v.
        trim_space v
        ≡ (refresh_keys sample_platform sample_library count_keys served_walk
            k1_provider).1.held.etag)
      (split_commas "W/\"7b7d\", W/\"7b7d\"")
unfolding refresh_keys load_public_jwks load_key ends_in_pem split_commas trim_space weak_etag
    append hex_encode hex_digit
own_tags = (refl, (refl, tt))

refreshed_not_fresh_example :
    ((jwks_handler
        (refresh_keys sample_platform sample_library count_keys served_walk k1_provider).1.held
        false
        "W/\"7b7d\", W/\"7b7d\"").status
      ≡ 200)
    × ((jwks_handler
          (refresh_keys sample_platform sample_library count_keys served_walk k1_provider).1.held
          false
          "W/\"7b7d\", W/\"7b7d\"").body
        ≡ some
            (refresh_keys sample_platform sample_library count_keys served_walk
              k1_provider).1.held.body)
refreshed_not_fresh_example =
    refreshed_not_fresh sample_platform sample_library count_keys served_walk k1_provider
      "W/\"7b7d\", W/\"7b7d\"" refreshes served own_tags
