-- ===== src/Keys/Published.antt =====
-- internal/auth/jwks/provider.go: the public keys that are published, each with its kid.
use shelf_auth.Keys.{KeyLibrary, Entry, ends_in_pem, trim_extension, load_key}
use shelf_auth.Prelude.{
  String, List, Option, [], if◌then◌else◌, ◌∷◌, some, ◌||◌, ◌++◌, is_empty, none, not, codes,
}
use shelf_auth.Errors.{Result, err, ok, failure}
use shelf_auth.Platform.{Bytes}

module _ (lib : KeyLibrary) where
  abbrev pub public_entry : String → Option Bytes → List (String × Bytes)
  public_entry kid none = []
  public_entry kid (some pub_key) = (kid, pub_key) ∷ []

  abbrev pub publish_loaded : String → Result Bytes → List (String × Bytes)
  publish_loaded kid (err e) = []
  publish_loaded kid (ok priv) = public_entry kid (lib.public_key priv)

  -- The function that WalkDir calls: what it appends.
  unfoldable pub publish_file : Entry → List (String × Bytes)
  publish_file f =
      if f.failed || f.is_dir || not (ends_in_pem (codes f.name))
      then []
      else publish_loaded (trim_extension f.name) (load_key lib "no PEM block found" f.path)

  unfoldable pub published : List Entry → List (String × Bytes)
  unfolding publish_file
  published [] = []
  published (f ∷ walk) = publish_file f ++ published walk

  -- loadPublicJWKs of a directory, by the entries that WalkDir visits.
  unfoldable pub load_public_jwks : String → List Entry → Result (List (String × Bytes))
  unfolding published
  load_public_jwks keys_dir walk =
      if is_empty keys_dir then err (failure "keys dir is empty") else ok (published walk)
