-- ===== src/Exec/Atomic.antt =====
-- Actions that leave the tables alone when they fail, with an error of a given class.
use shelf_auth.Errors.{Error, Result, err, is_ok, ok}
use shelf_auth.Exec.{Db, Exec, pure, World, ◌>>=◌, transaction, continue, statement}
use shelf_auth.Exec.Preserves.{Preorder, Preserves}
use shelf_auth.Prelude.{◌≡◌, ◌∙◌, Bool, if◌then◌else◌, true, ap, arith, false, refl}
use shelf_auth.Platform.{Platform}
use shelf_auth.Exec.Inversion.{transaction-eq-err, statement-eq-err}

pub record IsAtomic {ℓ} {A : Type ℓ} (P : Error → Type 0) (m : Exec A) : Type ℓ where
  pub at : (w : World) (e : Error) → P e → (m w).0 ≡ err e → (m w).1.db ≡ w.db

-- Actions that never change the tables.
abbrev pub Same : Db → Db → Type 0
Same a b = b ≡ a

pub Same-Preorder : Preorder Same
Same-Preorder = record { reflexive = λ a. refl; transitive = λ e f. f ∙ e }

abbrev pub Reads {ℓ} : {A : Type ℓ} → Exec A → Type ℓ
Reads m = Preserves Same m

continue_last {ℓ κ} :
    {A : Type ℓ} {B : Type κ} (r : Result A) (f : A → Exec B) (v w : World) (e : Error)
    → (r ≡ err e → v.db ≡ w.db)
    → ((a : A) (u : World) → is_ok (f a u).0 ≡ true)
    → (continue r f v).0 ≡ err e
    → (continue r f v).1.db ≡ w.db
continue_last (ok a) f v w e same k h = absurd (ground (arith, k a v))
continue_last (err x) f v w e same k h = same (ground arith)

module _ {P : Error → Type 0} where
  pub Reads-IsAtomic {ℓ} : {A : Type ℓ} (m : Exec A) → Reads m → IsAtomic P m
  Reads-IsAtomic m r = record { at = λ w e c h. r.at w }

  continue-same {ℓ κ} :
      {A : Type ℓ} {B : Type κ} (r : Result A) (f : A → Exec B) (v w : World) (e : Error)
      → P e
      → v.db ≡ w.db
      → ((a : A) → IsAtomic P (f a))
      → (continue r f v).0 ≡ err e
      → (continue r f v).1.db ≡ w.db
  continue-same (ok a) f v w e c same k h = (k a).at v e c h ∙ same
  continue-same (err x) f v w e c same k h = same

  pub bind-IsAtomic {ℓ κ} :
      {A : Type ℓ} {B : Type κ} (m : Exec A) (f : A → Exec B)
      → Reads m
      → ((a : A) → IsAtomic P (f a))
      → IsAtomic P (m >>= f)
  unfolding ◌>>=◌
  bind-IsAtomic m f r k = record {
    at = λ w e c h. continue-same (m w).0 f (m w).1 w e c (r.at w) k h;
  }

  -- Nothing fails after the last change.
  pub last-IsAtomic {ℓ κ} :
      {A : Type ℓ} {B : Type κ} (m : Exec A) (f : A → Exec B)
      → IsAtomic P m
      → ((a : A) (u : World) → is_ok (f a u).0 ≡ true)
      → IsAtomic P (m >>= f)
  unfolding ◌>>=◌
  last-IsAtomic m f r k = record {
    at = λ w e c h. continue_last (m w).0 f (m w).1 w e (r.at w e c) k h;
  }

  pub statement-IsAtomic {ℓ} :
      (p : Platform) {A : Type ℓ} (q : Db → Result (A × Db)) → IsAtomic P (statement p q)
  statement-IsAtomic p q = record { at = λ w e c h. ap (λ v. v.db) (statement-eq-err p q w h) }

  pub transaction-IsAtomic {ℓ} : {A : Type ℓ} (body : Exec A) → IsAtomic P (transaction body)
  transaction-IsAtomic body = record { at = λ w e c h. transaction-eq-err body w h }

  pub if-IsAtomic {ℓ} :
      {A : Type ℓ} (b : Bool) (m n : Exec A)
      → IsAtomic P m
      → IsAtomic P n
      → IsAtomic P (if b then m else n)
  if-IsAtomic true m n h k = h
  if-IsAtomic false m n h k = k

pub pure-ok {ℓ} : {A : Type ℓ} (a : A) (w : World) → is_ok (pure a w).0 ≡ true
unfolding pure
pure-ok a w = refl
