-- ===== src/Security/Encoding.antt =====
-- encoding/hex and base64.RawURLEncoding, as internal/security uses them, over bytes (numbers
-- below 256).
pub mod Decoding
use Prim.Native.Char.{Char}
use shelf_auth.Prelude.{
  ℕ, zero, suc, ◌+◌, ◌*◌, ◌/◌, ◌%◌, String, [], ◌∷◌, length, codes, ◌≡◌, arith, refl,
}
use shelf_auth.Platform.{Bytes}

-- The character at a place of a digit table, `?` past its end.
unfoldable pub nth : String → ℕ → Char
nth String.[] n = "?"
nth (String.◌∷◌ c s) zero = c
nth (String.◌∷◌ c s) (suc n) = nth s n

abbrev pub hex_table : String
hex_table = "0123456789abcdef"

abbrev pub url_table : String
url_table = "ABCDEFGHIJKLMNOPQRSTUVWXYZabcdefghijklmnopqrstuvwxyz0123456789-_"

unfoldable pub hex_digit : ℕ → Char
unfolding nth
hex_digit n = nth hex_table n

unfoldable pub url_digit : ℕ → Char
unfolding nth
url_digit n = nth url_table n

-- hex.EncodeToString
unfoldable pub hex_encode : Bytes → String
hex_encode [] = ""
hex_encode (b ∷ bs) =
    String.◌∷◌ (hex_digit (b / 16)) (String.◌∷◌ (hex_digit (b % 16)) (hex_encode bs))

-- base64.RawURLEncoding.EncodeToString
unfoldable pub url_encode : Bytes → String
url_encode [] = ""
url_encode (a ∷ []) = String.◌∷◌ (url_digit (a / 4)) (String.◌∷◌ (url_digit (a % 4 * 16)) "")
url_encode (a ∷ b ∷ []) =
    String.◌∷◌ (url_digit (a / 4))
      (String.◌∷◌ (url_digit (a % 4 * 16 + b / 16)) (String.◌∷◌ (url_digit (b % 16 * 4)) ""))
url_encode (a ∷ b ∷ c ∷ rest) = String.◌∷◌ (url_digit (a / 4)) (
    String.◌∷◌ (url_digit (a % 4 * 16 + b / 16)) (
      String.◌∷◌ (url_digit (b % 16 * 4 + c / 64))
        (String.◌∷◌ (url_digit (c % 64)) (url_encode rest))))
