-- ===== src/Security/Encoding/Decoding.antt =====
-- Decoders for the two encodings of internal/security/token.go.
use shelf_auth.Platform.{Bytes}
use shelf_auth.Prelude.{
  ℕ, Char, String, All, Bool, if◌then◌else◌, ◌==◌, is_space, ◌<◌, [], ◌≡◌, length, ◌*◌, true, leb,
  code, nat_eq_iff, ◌+◌, ◌∷◌, codes, is_empty, suc, arith, ◌-◌, ℕ_eq, false, ◌/◌, ap, trim_space,
  ◌&&◌, zero, refl, and-eq-true, ◌%◌, trim_space-cons_of_graphic, not, ap₂,
}
use shelf_auth.Security.Encoding.{hex_digit, url_digit, hex_encode, url_encode}

abbrev pub IsBytes : Bytes → Type 0
IsBytes = All (λ b. b < 256)

all_below : ℕ → (ℕ → Bool) → Bool
all_below zero test = true
all_below (suc n) test = test n && all_below n test

all_below_sound :
    (n : ℕ) (test : ℕ → Bool) (x : ℕ) → all_below n test ≡ true → x < n → test x ≡ true
unfolding all_below
all_below_sound zero test x h lt = absurd (omega arith)
all_below_sound (suc n) test x h lt = ground (arith, all_below_sound n test x)

abbrev hex_value : Char → ℕ
hex_value c = if leb (code c) b'9' then code c - b'0' else code c - b'a' + 10

abbrev url_value : Char → ℕ
url_value c =
    if code c == b'-'
    then 62
    else if code c == b'_'
    then 63
    else if leb (code c) b'9'
    then code c - b'0' + 52
    else if leb (code c) b'Z'
    then code c - b'A'
    else code c - b'a' + 26

hex_table_ok : all_below 16 (λ n. hex_value (hex_digit n) == n) ≡ true
unfolding all_below hex_digit
hex_table_ok = refl

url_table_ok :
    all_below 64 (λ n. url_value (url_digit n) == n && not (is_space (code (url_digit n)))) ≡ true
unfolding all_below url_digit is_space
url_table_ok = refl

hex_value-hex_digit : (n : ℕ) → n < 16 → hex_value (hex_digit n) ≡ n
hex_value-hex_digit n h =
    (nat_eq_iff _ n).0 (all_below_sound 16 (λ n. hex_value (hex_digit n) == n) n hex_table_ok h)

url_digit_lem :
    (n : ℕ) → n < 64 → (url_value (url_digit n) ≡ n) × (is_space (code (url_digit n)) ≡ false)
url_digit_lem n h =
    let (a, b) = and-eq-true (url_value (url_digit n) == n) (not (is_space (code (url_digit n)))) (
      all_below_sound 64 (λ n. url_value (url_digit n) == n && not (is_space (code (url_digit n))))
        n url_table_ok h) in
    ((nat_eq_iff _ n).0 a, ground arith)

pub hex_decode : String → Bytes
hex_decode String.[] = []
hex_decode (String.◌∷◌ c String.[]) = []
hex_decode (String.◌∷◌ c (String.◌∷◌ d s)) = (hex_value c * 16 + hex_value d) ∷ hex_decode s

pub hex_decode-hex_encode : (bs : Bytes) → IsBytes bs → hex_decode (hex_encode bs) ≡ bs
unfolding hex_decode hex_encode
hex_decode-hex_encode [] h = refl
hex_decode-hex_encode (b ∷ bs) (small, h) =
    ap₂ ◌∷◌
      (omega (
        arith,
        hex_value-hex_digit (b / 16) (omega arith),
        hex_value-hex_digit (b % 16) (omega arith),
      ))
      (hex_decode-hex_encode bs h)

pub count-hex_encode : (bs : Bytes) → length (codes (hex_encode bs)) ≡ 2 * length bs
unfolding hex_encode
count-hex_encode [] = omega arith
count-hex_encode (b ∷ bs) = omega (arith, count-hex_encode bs)

pub url_decode : String → Bytes
url_decode (String.◌∷◌ c (String.◌∷◌ d (String.◌∷◌ e (String.◌∷◌ f s)))) =
    (url_value c * 4 + url_value d / 16)
    ∷ (url_value d % 16 * 16 + url_value e / 4)
    ∷ (url_value e % 4 * 64 + url_value f)
    ∷ url_decode s
url_decode (String.◌∷◌ c (String.◌∷◌ d (String.◌∷◌ e String.[]))) =
    (url_value c * 4 + url_value d / 16) ∷ (url_value d % 16 * 16 + url_value e / 4) ∷ []
url_decode (String.◌∷◌ c (String.◌∷◌ d String.[])) = (url_value c * 4 + url_value d / 16) ∷ []
url_decode _ = []

value : (n : ℕ) → n < 64 → url_value (url_digit n) ≡ n
value n h = (url_digit_lem n h).0

pub url_decode-url_encode : (bs : Bytes) → IsBytes bs → url_decode (url_encode bs) ≡ bs
unfolding url_decode url_encode
url_decode-url_encode [] h = refl
url_decode-url_encode (a ∷ []) (ha, _) =
    ap (λ (x : ℕ). x ∷ [])
      (omega (arith, value (a / 4) (omega arith), value (a % 4 * 16) (omega arith)))
url_decode-url_encode (a ∷ b ∷ []) (ha, (hb, _)) =
    let v = value (a % 4 * 16 + b / 16) (omega arith) in
    ap₂ (λ (x y : ℕ). x ∷ y ∷ []) (omega (arith, value (a / 4) (omega arith), v))
      (omega (arith, v, value (b % 16 * 4) (omega arith)))
url_decode-url_encode (a ∷ b ∷ c ∷ rest) (ha, (hb, (hc, h))) =
    let v = value (a % 4 * 16 + b / 16) (omega arith) in
    let w = value (b % 16 * 4 + c / 64) (omega arith) in
    ap₂ ◌∷◌ (omega (arith, value (a / 4) (omega arith), v)) (
      ap₂ ◌∷◌ (omega (arith, v, w))
        (ap₂ ◌∷◌ (omega (arith, w, value (c % 64) (omega arith))) (url_decode-url_encode rest h)))

pub url_encode-graphic :
    (b : ℕ) (bs : Bytes) → b < 256 → is_empty (trim_space (url_encode (b ∷ bs))) ≡ false
unfolding url_encode
url_encode-graphic b [] h = trim_space-cons_of_graphic _ _ (url_digit_lem (b / 4) (omega arith)).1
url_encode-graphic b (c ∷ []) h =
    trim_space-cons_of_graphic _ _ (url_digit_lem (b / 4) (omega arith)).1
url_encode-graphic b (c ∷ d ∷ bs) h =
    trim_space-cons_of_graphic _ _ (url_digit_lem (b / 4) (omega arith)).1
