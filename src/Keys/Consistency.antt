-- ===== src/Keys/Consistency.antt =====
-- The signer (internal/auth/signer/signer.go) and the key set (internal/auth/jwks/provider.go)
-- over one directory.
use shelf_auth.Prelude.{
  String_eq, none, some, inl, inr, String, List, Option, ◌≡◌, ◌∷◌, ◌++◌, ◌⊎◌, [], arith,
  Option-cases, false, All, Bool-cases, ◌==◌, ◌||◌, not, codes, eq_of_some, subst, if◌then◌else◌,
  is_empty, ap, text_eq_iff, refl, Elem,
}
use shelf_auth.Keys.{
  KeyLibrary, load_key, key_of_block, Entry, ends_in_pem, key_of_file, trim_extension,
}
use shelf_auth.Platform.{Bytes}
use shelf_auth.Errors.{ok, Result, err}
use shelf_auth.Keys.Signing.{add_file, add_files, key_with, add_loaded, signing_key, reload, Signer}
use shelf_auth.Keys.Published.{publish_file, published, publish_loaded, load_public_jwks}

Elem-append_left :
    (y : String × Bytes) (xs ys : List (String × Bytes)) → Elem y xs → Elem y (xs ++ ys)
Elem-append_left y [] ys e = absurd e
Elem-append_left y (x ∷ xs) ys (inl h) = inl h
Elem-append_left y (x ∷ xs) ys (inr h) = inr (Elem-append_left y xs ys h)

Elem-append_right :
    (y : String × Bytes) (xs ys : List (String × Bytes)) → Elem y ys → Elem y (xs ++ ys)
Elem-append_right y [] ys e = e
Elem-append_right y (x ∷ xs) ys e = inr (Elem-append_right y xs ys e)

module _ (lib : KeyLibrary) (kid : String) (priv pub_key : Bytes) where
  key_of_block-eq-ok :
      (m m' : String) (block : Option Bytes) {k : Bytes}
      → key_of_block lib m block ≡ ok k
      → key_of_block lib m' block ≡ ok k
  key_of_block-eq-ok m m' none h = absurd (ground arith)
  key_of_block-eq-ok m m' (some b) h = h

  key_of_file-eq-ok :
      (m m' : String) (contents : Option Bytes) {k : Bytes}
      → key_of_file lib m contents ≡ ok k
      → key_of_file lib m' contents ≡ ok k
  key_of_file-eq-ok m m' none h = absurd (ground arith)
  key_of_file-eq-ok m m' (some b) h = key_of_block-eq-ok m m' (lib.pem_block b) h

  load_key-eq-ok :
      (m m' path : String) (k : Bytes) → load_key lib m path ≡ ok k → load_key lib m' path ≡ ok k
  unfolding load_key
  load_key-eq-ok m m' path k h = key_of_file-eq-ok m m' (lib.read_file path) h

  module _ (public_half : lib.public_key priv ≡ some pub_key) where
    added_or_old :
        (name : String) (r r' : Result Bytes) (keys : List (String × Bytes))
        → ((k : Bytes) → r ≡ ok k → r' ≡ ok k)
        → key_with kid (add_loaded lib name r keys) ≡ some priv
        → (key_with kid keys ≡ some priv) ⊎ Elem (kid, pub_key) (publish_loaded lib name r')
    added_or_old name (err e) r' keys same h = inl h
    added_or_old name (ok k) r' keys same h = elim (Bool-cases (name == kid)) [
      | inr other ↦ inl (ground arith)
      | inl named ↦
          let same_key : k ≡ priv =
            eq_of_some
              (subst (λ b. (if b then some k else key_with kid keys) ≡ some priv) named h) in
          inr (
            rw (same k refl, same_key, public_half)
              (inl (ap (λ n. (n, pub_key)) ((text_eq_iff name kid).0 named))))
    ]

    file_or_old :
        (f : Entry) (keys : List (String × Bytes))
        → f.failed ≡ false
        → key_with kid (add_file lib f keys) ≡ some priv
        → (key_with kid keys ≡ some priv) ⊎ Elem (kid, pub_key) (publish_file lib f)
    unfolding add_file publish_file
    file_or_old f keys whole h = elim (Bool-cases (f.is_dir || not (ends_in_pem (codes f.name)))) [
      | inl skipped ↦ inl (ground arith)
      | inr read ↦
          let name = trim_extension f.name in
          let loaded = load_key lib "no PEM block" f.path in
          let kept =
            subst
              (λ b. key_with kid (if b then keys else add_loaded lib name loaded keys) ≡ some priv)
              read h in
          rw (whole, read)
            (added_or_old name loaded (load_key lib "no PEM block found" f.path) keys
              (load_key-eq-ok _ _ f.path) kept)
    ]

    files_or_old :
        (files : List Entry) (keys : List (String × Bytes))
        → All (λ f. f.failed ≡ false) files
        → key_with kid (add_files lib files keys) ≡ some priv
        → (key_with kid keys ≡ some priv) ⊎ Elem (kid, pub_key) (published lib files)
    unfolding add_files published
    files_or_old [] keys whole h = inl h
    files_or_old (f ∷ files) keys (whole, rest) h =
        elim (files_or_old files (add_file lib f keys) rest h) [
          | inr later ↦ inr (Elem-append_right _ (publish_file lib f) _ later)
          | inl now ↦ elim (file_or_old f keys whole now) [
            | inl old ↦ inl old
            | inr here ↦ inr (Elem-append_left _ (publish_file lib f) _ here)
          ]
        ]

signing-eq-ok :
    (s : Signer) (kid : String) (priv : Bytes)
    → signing_key s ≡ ok (kid, priv)
    → (s.kid ≡ kid) × (key_with s.kid s.keys ≡ some priv)
unfolding signing_key
signing-eq-ok s kid priv h = elim (Option-cases (key_with s.kid s.keys)) [
  | inl missing ↦ absurd (ground arith)
  | inr (k, found) ↦ (ground arith, ground arith)
]

-- The key that signs after a reload is published: where the provider's walk visits the directory
-- and then the entries that the signer's listing has, and reads them all, the public half of the
-- signing key stands in the key set, under the signing kid.
pub signing_key-published :
    (lib : KeyLibrary) (keys_dir kid : String) (top : Entry) (files : List Entry) (s : Signer)
    (priv pub_key : Bytes)
    → is_empty keys_dir ≡ false
    → All (λ f. f.failed ≡ false) files
    → signing_key (reload lib (some files) s).1 ≡ ok (kid, priv)
    → lib.public_key priv ≡ some pub_key
    → (ks : List (String × Bytes)) × (load_public_jwks lib keys_dir (top ∷ files) ≡ ok ks)
      × Elem (kid, pub_key) ks
unfolding reload load_public_jwks
signing_key-published lib keys_dir kid top files s priv pub_key named whole signs public_half =
    let (same, found) = signing-eq-ok _ kid priv signs in
    elim (files_or_old lib kid priv pub_key public_half files [] whole
      (subst (λ k. key_with k (add_files lib files []) ≡ some priv) same found)) [
        | inl none_before ↦ absurd (ground arith)
        | inr here ↦ (
          published lib (top ∷ files),
          rw named refl,
          Elem-append_right _ (publish_file lib top) _ here,
        )
      ]
