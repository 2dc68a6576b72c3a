-- ===== src/Keys/Signing.antt =====
-- internal/auth/signer/signer.go: the keys of the signer, and which of them signs.
use shelf_auth.Prelude.{
  String_eq, String, List, Option, Bool, none, if◌then◌else◌, ◌∷◌, ◌==◌, false, ◌||◌, [], some,
  true, not, codes,
}
use shelf_auth.Keys.{KeyLibrary, Entry, ends_in_pem, trim_extension, load_key}
use shelf_auth.Errors.{Result, err, ok, failure}
use shelf_auth.Platform.{Bytes, Duration}

pub record Signer : Type 0 where
  pub keys_dir : String
  pub alg : String
  pub ttl : Duration
  pub kid : String
  pub issuer : String
  pub audience : String
  -- the map from kid to private key, the entry that was written last first
  pub keys : List (String × Bytes)
  pub ready : Bool

abbrev pub key_with : String → List (String × Bytes) → Option Bytes
key_with kid [] = none
key_with kid ((k, key) ∷ keys) = if k == kid then some key else key_with kid keys

abbrev pub has_keys : List (String × Bytes) → Bool
has_keys [] = false
has_keys (k ∷ keys) = true

module _ (lib : KeyLibrary) where
  abbrev pub add_loaded : String → Result Bytes → List (String × Bytes) → List (String × Bytes)
  add_loaded kid (err e) keys = keys
  add_loaded kid (ok priv) keys = (kid, priv) ∷ keys

  -- One round of the loop of reload.
  unfoldable pub add_file : Entry → List (String × Bytes) → List (String × Bytes)
  add_file f keys =
      if f.is_dir || not (ends_in_pem (codes f.name))
      then keys
      else add_loaded (trim_extension f.name) (load_key lib "no PEM block" f.path) keys

  unfoldable pub add_files : List Entry → List (String × Bytes) → List (String × Bytes)
  add_files [] keys = keys
  add_files (f ∷ files) keys = add_files files (add_file f keys)

  -- The listing is what os.ReadDir returns.
  unfoldable pub reload : Option (List Entry) → Signer → Result (Unit {0}) × Signer
  unfolding add_files add_file
  reload none s = (err (failure "open"), s)
  reload (some files) s =
      let loaded = add_files files [] in
      (ok tt, record s { keys = loaded; ready = has_keys loaded })

unfoldable pub set_active_kid : String → Signer → Result (Unit {0}) × Signer
set_active_kid kid s = elim (key_with kid s.keys) [
  | none ↦ (err (failure "kid not loaded"), s)
  | some key ↦ (ok tt, record s { kid = kid })
]

-- The private key and the kid that SignAccess signs with.
unfoldable pub signing_key : Signer → Result (String × Bytes)
signing_key s = elim (key_with s.kid s.keys) [
  | none ↦ err (failure "signing key not found")
  | some key ↦ ok (s.kid, key)
]

-- New: the keys are loaded at once, and a failure to list the directory is dropped.
unfoldable pub new_signer :
    KeyLibrary
    → String
    → String
    → String
    → Duration
    → String
    → String
    → Option (List Entry)
    → Signer
new_signer lib keys_dir kid alg ttl issuer audience listing =
    (reload lib listing (record {
      keys_dir = keys_dir;
      alg = alg;
      ttl = ttl;
      kid = kid;
      issuer = issuer;
      audience = audience;
      keys = [];
      ready = false;
    })).1

-- The ticks of StartAutoReload until its context is cancelled; errors are dropped.
unfoldable pub auto_reload : KeyLibrary → List (Option (List Entry)) → Signer → Signer
auto_reload lib [] s = s
auto_reload lib (listing ∷ ticks) s = auto_reload lib ticks (reload lib listing s).1
