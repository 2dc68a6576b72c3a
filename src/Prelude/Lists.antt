-- ===== src/Prelude/Lists.antt =====
-- Lists measured by native numbers, predicates of all their elements, and Boolean searches.
use Prim.Native.Nat.{ℕ, suc, ◌+◌}
use mathlib.Core.Path.{◌≡◌, refl, ◌∙◌, subst}
use mathlib.Core.Logic.{◌⊎◌, inl, inr}
use mathlib.Core.Bool.{Bool, true, false, ◌||◌}
use mathlib.Core.List.{List, [], ◌∷◌, ◌++◌}
use mathlib.Core.Option.{Option, none, some}
use native.Mathlib.Omega.{arith}
use shelf_auth.Prelude.Tests.{if◌then◌else◌}

module _ {ℓ} {A : Type ℓ} where
  abbrev pub length : List A → ℕ
  length [] = 0
  length (x ∷ xs) = suc (length xs)

  pub length-append : (xs ys : List A) → length (xs ++ ys) ≡ length xs + length ys
  length-append [] ys = omega arith
  length-append (x ∷ xs) ys = omega (arith, length-append xs ys)

  abbrev pub any : (A → Bool) → List A → Bool
  any test [] = false
  any test (x ∷ xs) = test x || any test xs

  -- The first element that passes the test.
  abbrev pub find : (A → Bool) → List A → Option A
  find test [] = none
  find test (x ∷ xs) = if test x then some x else find test xs

  -- The list with each element that passes the test replaced.
  abbrev pub update : (A → Bool) → (A → A) → List A → List A
  update test f [] = []
  update test f (x ∷ xs) = (if test x then f x else x) ∷ update test f xs

module _ {ℓ κ} {A : Type ℓ} where
  abbrev pub All : (A → Type κ) → List A → Type κ
  All test [] = Unit
  All test (first ∷ rest) = test first × All test rest

  module _ (test : A → Type κ) (back : List A) (kept : All test back) where
    pub All-append : (front : List A) → All test front → All test (front ++ back)
    All-append [] given = kept
    All-append (a ∷ front) (here, given) = (here, All-append front given)

  pub All-split :
      (test : A → Type κ) (front : List A) (a : A) (back : List A)
      → All test (front ++ a ∷ back)
      → test a × All test (front ++ back)
  All-split test [] a back given = given
  All-split test (b ∷ front) a back given =
      let (here, rest) = All-split test front a back given.1 in (here, (given.0, rest))

module _ {ℓ} {A : Type ℓ} where
  pub any-append_one :
      (test : A → Bool) (xs : List A) (x : A) → any test (xs ++ x ∷ []) ≡ (any test xs || test x)
  any-append_one test [] x = ground arith
  any-append_one test (y ∷ xs) x = ground (arith, any-append_one test xs x)

  pub any-append_left :
      (test : A → Bool) (xs ys : List A) → any test xs ≡ true → any test (xs ++ ys) ≡ true
  any-append_left test [] ys h = cc
  any-append_left test (x ∷ xs) ys h = ground (arith, any-append_left test xs ys)

  -- No element is in conflict with a later one.
  abbrev pub Distinct : (A → A → Bool) → List A → Type 0
  Distinct conflict [] = Unit
  Distinct conflict (x ∷ xs) = (any (conflict x) xs ≡ false) × Distinct conflict xs

  pub append_one-Distinct :
      (conflict : A → A → Bool) (xs : List A) (x : A)
      → any (λ y. conflict y x) xs ≡ false
      → Distinct conflict xs
      → Distinct conflict (xs ++ x ∷ [])
  append_one-Distinct conflict [] x h d = (refl, tt)
  append_one-Distinct conflict (y ∷ xs) x h d = (
    ground (arith, any-append_one (conflict y) xs x),
    append_one-Distinct conflict xs x (ground arith) d.1,
  )

  abbrev pub changed : (A → Bool) → (A → A) → A → A
  changed test f x = if test x then f x else x

  any-update :
      (conflict : A → A → Bool) (test : A → Bool) (f : A → A) (x : A) (xs : List A)
      → ((y z : A) → conflict (changed test f y) (changed test f z) ≡ conflict y z)
      → any (conflict (changed test f x)) (update test f xs) ≡ any (conflict x) xs
  any-update conflict test f x [] same = refl
  any-update conflict test f x (y ∷ ys) same = rw (same x y, any-update conflict test f x ys same)

  pub update-Distinct :
      (conflict : A → A → Bool) (test : A → Bool) (f : A → A) (xs : List A)
      → ((y z : A) → conflict (changed test f y) (changed test f z) ≡ conflict y z)
      → Distinct conflict xs
      → Distinct conflict (update test f xs)
  update-Distinct conflict test f [] same d = tt
  update-Distinct conflict test f (x ∷ xs) same d =
      (any-update conflict test f x xs same ∙ d.0, update-Distinct conflict test f xs same d.1)

module _ {ℓ κ} {A : Type ℓ} where
  pub map-All : {P Q : A → Type κ} → ((a : A) → P a → Q a) → (xs : List A) → All P xs → All Q xs
  map-All f [] h = tt
  map-All f (x ∷ xs) h = (f x h.0, map-All f xs h.1)

  pub update-All :
      {P : A → Type κ} (test : A → Bool) (f : A → A)
      → ((a : A) → P a → P (changed test f a))
      → (xs : List A) → All P xs
      → All P (update test f xs)
  update-All test f keep [] h = tt
  update-All test f keep (x ∷ xs) h = (keep x h.0, update-All test f keep xs h.1)

module _ {ℓ} {A : Type ℓ} where
  pub any-or : (s t : A → Bool) (xs : List A) → any (λ x. s x || t x) xs ≡ (any s xs || any t xs)
  any-or s t [] = refl
  any-or s t (x ∷ xs) = ground (arith, any-or s t xs)

module _ {A : Type 0} where
  -- Is an element on the list?
  abbrev pub Elem : A → List A → Type 0
  Elem y [] = ⊥
  Elem y (x ∷ xs) = (x ≡ y) ⊎ Elem y xs

  pub All-Elem : (P : A → Type 0) (y : A) (xs : List A) → All P xs → Elem y xs → P y
  All-Elem P y [] h e = absurd e
  All-Elem P y (x ∷ xs) h (inl same) = subst P same h.0
  All-Elem P y (x ∷ xs) h (inr e) = All-Elem P y xs h.1 e

  pub self-All : (all xs : List A) → ((y : A) → Elem y xs → Elem y all) → All (λ y. Elem y all) xs
  self-All all [] h = tt
  self-All all (x ∷ xs) h = (h x (inl refl), self-All all xs (λ y e. h y (inr e)))
