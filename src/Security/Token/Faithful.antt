-- ===== src/Security/Token/Faithful.antt =====
-- Laws of opaque tokens and their stored hashes (internal/security/token.go).
use shelf_auth.Security.Token.{hash_sha256_hex, generate_opaque_token}
use shelf_auth.Platform.{Platform, Bytes}
use shelf_auth.Prelude.{String, ℕ, length, ◌∷◌, ◌≡◌, codes, some, ◌↔◌, arith, sym, true, ◌∙◌, ap}
use shelf_auth.Security.Encoding.Decoding.{
  IsBytes, url_decode, count-hex_encode, hex_decode-hex_encode, url_decode-url_encode,
  url_encode-graphic, hex_decode,
}
use shelf_auth.Errors.{ok}
use shelf_auth.Domain.{non_empty}
use shelf_auth.Security.Encoding.{url_encode, hex_encode}

-- Where SHA-256 yields 32 bytes, a stored hash has 64 characters, and two texts have the same
-- stored hash exactly if they have the same digest.
hash_sha256_hex_faithful :
    (p : Platform) (s t : String)
    → IsBytes (p.sha256 s)
    → IsBytes (p.sha256 t)
    → length (p.sha256 s) ≡ 32
    → (length (codes (hash_sha256_hex p s)) ≡ 64)
      × ((hash_sha256_hex p s ≡ hash_sha256_hex p t) ↔ (p.sha256 s ≡ p.sha256 t))
unfolding hash_sha256_hex
hash_sha256_hex_faithful p s t hs ht len = (
  omega (arith, count-hex_encode (p.sha256 s)),
  (
    λ e. sym (hex_decode-hex_encode _ hs) ∙ ap hex_decode e ∙ hex_decode-hex_encode _ ht,
    λ e. ap hex_encode e,
  ),
)

-- A generated token decodes to the random bytes that it was made from, so tokens from different
-- bytes differ; and one made from at least one byte is not blank.
pub token_faithful :
    (p : Platform) (n call b : ℕ) (bs : Bytes) (token : String)
    → IsBytes (b ∷ bs)
    → p.entropy call n ≡ some (b ∷ bs)
    → generate_opaque_token p n call ≡ ok token
    → (url_decode token ≡ b ∷ bs) × (non_empty token ≡ true)
unfolding generate_opaque_token
token_faithful p n call b bs token small drawn h =
    let same : url_encode (b ∷ bs) ≡ token = ground arith in
    rw (← same) (
      url_decode-url_encode (b ∷ bs) small,
      unfold non_empty in rw (url_encode-graphic b bs small.0),
    )
