-- ===== src/Prelude/Texts.antt =====
-- The text functions of Go's package strings that the program calls. A text is a sequence of
-- code points, as it is in a valid UTF-8 string.
use Prim.Native.Nat.{ℕ}
use Prim.Native.Char.{Char, code}
use Prim.Native.String.{String, [], ◌∷◌}
use mathlib.Core.Path.{◌≡◌, refl}
use mathlib.Core.Bool.{Bool, true, false, ◌&&◌, ◌||◌}
use mathlib.Core.List.{List}
use mathlib.Core.Option.{Option, some, none}
use mathlib.Core.Logic.{inl, inr}
use native.Mathlib.Omega.{arith}
use shelf_auth.Prelude.Tests.{leb, nat_eq, if◌then◌else◌, Bool-cases}

-- What follows a prefix, or the whole text: strings.TrimPrefix.
strip : String → String → Option String
strip [] s = some s
strip (c ∷ pre) [] = none
strip (c ∷ pre) (d ∷ s) = if nat_eq (code c) (code d) then strip pre s else none

abbrev pub or_text : String → Option String → String
or_text s none = s
or_text s (some rest) = rest

unfoldable pub trim_prefix : String → String → String
unfolding strip
trim_prefix pre s = or_text s (strip pre s)

abbrev pub codes : String → List ℕ
codes [] = List.[]
codes (c ∷ s) = List.◌∷◌ (code c) (codes s)

abbrev pub is_empty : String → Bool
is_empty [] = true
is_empty (c ∷ s) = false

-- unicode.IsSpace: the code points with the property White_Space.
unfoldable pub is_space : ℕ → Bool
is_space n =
    (leb 9 n && leb n 13)
    || nat_eq n 0x20
    || nat_eq n 0x85
    || nat_eq n 0xa0
    || nat_eq n 0x1680
    || (leb 0x2000 n && leb n 0x200a)
    || nat_eq n 0x2028
    || nat_eq n 0x2029
    || nat_eq n 0x202f
    || nat_eq n 0x205f
    || nat_eq n 0x3000

pub trim_left : String → String
trim_left [] = []
trim_left (c ∷ s) = if is_space (code c) then trim_left s else c ∷ s

keep_unless_blank : Char → String → String
keep_unless_blank c rest = if is_space (code c) && is_empty rest then [] else c ∷ rest

pub trim_right : String → String
trim_right [] = []
trim_right (c ∷ s) = keep_unless_blank c (trim_right s)

-- strings.TrimSpace
unfoldable pub trim_space : String → String
unfolding trim_left trim_right keep_unless_blank is_space
trim_space s = trim_right (trim_left s)

trim_right-keep :
    (c : Char) (s : String)
    → trim_right s ≡ s
    → trim_right (keep_unless_blank c s) ≡ keep_unless_blank c s
unfolding keep_unless_blank trim_right
trim_right-keep c s e = elim (Bool-cases (is_space (code c) && is_empty s)) [
  | inl blank ↦ rw blank
  | inr kept ↦ rw (kept, trim_right, e, keep_unless_blank) (rw kept)
]

trim_right_idem : (s : String) → trim_right (trim_right s) ≡ trim_right s
unfolding trim_right
trim_right_idem [] = refl
trim_right_idem (c ∷ s) = trim_right-keep c (trim_right s) (trim_right_idem s)

trim_left_of_graphic :
    (c : Char) (s : String) → is_space (code c) ≡ false → trim_left (c ∷ s) ≡ c ∷ s
unfolding trim_left
trim_left_of_graphic c s h = rw h

trim_right-cons_of_graphic :
    (c : Char) (s : String) → is_space (code c) ≡ false → trim_right (c ∷ s) ≡ c ∷ trim_right s
unfolding trim_right keep_unless_blank
trim_right-cons_of_graphic c s h = rw h

trim_left-trim_right-trim_left :
    (s : String) → trim_left (trim_right (trim_left s)) ≡ trim_right (trim_left s)
unfolding trim_left
trim_left-trim_right-trim_left [] = unfold trim_right in refl
trim_left-trim_right-trim_left (c ∷ s) = elim (Bool-cases (is_space (code c))) [
  | inl blank ↦ rw blank (trim_left-trim_right-trim_left s)
  | inr kept ↦
      rw (kept, trim_right-cons_of_graphic c s kept) (trim_left_of_graphic c (trim_right s) kept)
]

pub trim_space_idem : (s : String) → trim_space (trim_space s) ≡ trim_space s
unfolding trim_space
trim_space_idem s = rw (trim_left-trim_right-trim_left s) (trim_right_idem (trim_left s))

pub is_empty_of_trim_space : (s : String) → is_empty (trim_space s) ≡ false → is_empty s ≡ false
unfolding trim_space
is_empty_of_trim_space [] h = h
is_empty_of_trim_space (c ∷ s) h = refl

-- A text that begins with a graphic character is not blank.
pub trim_space-cons_of_graphic :
    (c : Char) (s : String) → is_space (code c) ≡ false → is_empty (trim_space (c ∷ s)) ≡ false
unfolding trim_space
trim_space-cons_of_graphic c s h = rw (trim_left_of_graphic c s h, trim_right-cons_of_graphic c s h)

-- s + t
unfoldable pub append : String → String → String
append [] t = t
append (c ∷ s) t = c ∷ append s t

strip-append : (pre s : String) → strip pre (append pre s) ≡ some s
unfolding strip append
strip-append [] s = refl
strip-append (c ∷ pre) s = ground (arith, strip-append pre s)

pub trim_prefix-append : (pre s : String) → trim_prefix pre (append pre s) ≡ s
unfolding trim_prefix
trim_prefix-append pre s = rw (strip-append pre s)
