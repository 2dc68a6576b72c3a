-- ===== src/Exec/Inversion.antt =====
-- What a successful action says of its steps.
use shelf_auth.Errors.{Result, ok, err, Error}
use shelf_auth.Exec.{◌>>=◌, statement, transaction, Exec, Db, World, continue, next}
use shelf_auth.Platform.{Platform}
use shelf_auth.Prelude.{◌≡◌, arith, Option-cases, refl, inl, inr}

module _ {ℓ κ} {A : Type ℓ} {B : Type κ} where
  -- A successful sequence: the first part's value, and what is left of the run.
  pub record BindOk (m : Exec A) (f : A → Exec B) (v : World) (b : B) : Type (ℓ ⊔ κ) where
    pub value : A
    pub first : (m v).0 ≡ ok value
    pub rest : (f value (m v).1).0 ≡ ok b
    pub whole : ((m >>= f) v).1 ≡ (f value (m v).1).1

  continue-eq-ok :
      (r : Result A) (f : A → Exec B) (v : World) {b : B}
      → (continue r f v).0 ≡ ok b
      → (a : A) × (r ≡ ok a) × ((f a v).0 ≡ ok b) × ((continue r f v).1 ≡ (f a v).1)
  continue-eq-ok (ok a) f v h = (a, refl, h, refl)
  continue-eq-ok (err e) f v h = absurd (ground arith)

  pub bind-eq-ok :
      (m : Exec A) (f : A → Exec B) (v : World) {b : B} → ((m >>= f) v).0 ≡ ok b → BindOk m f v b
  unfolding ◌>>=◌
  bind-eq-ok m f v h =
      let (a, e, rest, whole) = continue-eq-ok (m v).0 f (m v).1 h in
      record { value = a; first = e; rest = rest; whole = whole }

  -- A sequence whose first part succeeds goes on with its value.
  pub bind-of_ok :
      (m : Exec A) (f : A → Exec B) (v : World) (a : A) → (m v).0 ≡ ok a → (m >>= f) v ≡ f a (m v).1
  unfolding ◌>>=◌
  bind-of_ok m f v a h = rw h

  pub bind-of_run :
      (m : Exec A) (f : A → Exec B) (v v' : World) (a : A) → m v ≡ (ok a, v') → (m >>= f) v ≡ f a v'
  unfolding ◌>>=◌
  bind-of_run m f v v' a h = rw h

module _ {ℓ} {A : Type ℓ} where
  -- A successful statement was applied.
  statement-result-eq-ok :
      (p : Platform) (q : Db → Result (A × Db)) (w : World) {a : A} (r : Result (A × Db))
      → q w.db ≡ r
      → (statement p q w).0 ≡ ok a
      → q w.db ≡ ok (a, (statement p q w).1.db)
  unfolding statement
  statement-result-eq-ok p q w (ok (a, d)) e h = elim (Option-cases (p.fault w.tick)) [
    | inl works ↦ rw (works, statement, e) (ground arith)
    | inr (why, fails) ↦ absurd (ground arith)
  ]
  statement-result-eq-ok p q w (err x) e h = absurd (ground arith)

  pub statement-eq-ok :
      (p : Platform) (q : Db → Result (A × Db)) (w : World) {a : A}
      → (statement p q w).0 ≡ ok a
      → q w.db ≡ ok (a, (statement p q w).1.db)
  statement-eq-ok p q w h = statement-result-eq-ok p q w (q w.db) refl h

  transaction-result-eq-ok :
      (body : Exec A) (w : World) {a : A} (r : Result A)
      → (body w).0 ≡ r
      → (transaction body w).0 ≡ ok a
      → ((body w).0 ≡ ok a) × ((transaction body w).1 ≡ (body w).1)
  unfolding transaction
  transaction-result-eq-ok body w (ok a') e h = (ground arith, rw (e, transaction))
  transaction-result-eq-ok body w (err x) e h = absurd (ground arith)

  pub transaction-eq-ok :
      (body : Exec A) (w : World) {a : A}
      → (transaction body w).0 ≡ ok a
      → ((body w).0 ≡ ok a) × ((transaction body w).1 ≡ (body w).1)
  transaction-eq-ok body w h = transaction-result-eq-ok body w (body w).0 refl h

  transaction-result-eq-err :
      (body : Exec A) (w : World) {e : Error} (r : Result A)
      → (body w).0 ≡ r
      → (transaction body w).0 ≡ err e
      → (transaction body w).1.db ≡ w.db
  unfolding transaction
  transaction-result-eq-err body w (ok a) q h = absurd (ground arith)
  transaction-result-eq-err body w (err x) q h = rw (q, transaction)

  -- A transaction that fails changes nothing.
  pub transaction-eq-err :
      (body : Exec A) (w : World) {e : Error}
      → (transaction body w).0 ≡ err e
      → (transaction body w).1.db ≡ w.db
  transaction-eq-err body w h = transaction-result-eq-err body w (body w).0 refl h

  statement-result-eq-err :
      (p : Platform) (q : Db → Result (A × Db)) (w : World) {e : Error} (r : Result (A × Db))
      → q w.db ≡ r
      → (statement p q w).0 ≡ err e
      → (statement p q w).1 ≡ next w
  unfolding statement
  statement-result-eq-err p q w (ok (a, d)) i h = elim (Option-cases (p.fault w.tick)) [
    | inl works ↦ absurd (ground arith)
    | inr (why, fails) ↦ rw (fails, statement)
  ]
  statement-result-eq-err p q w (err x) i h = elim (Option-cases (p.fault w.tick)) [
    | inl works ↦ rw (works, statement, i)
    | inr (why, fails) ↦ rw (fails, statement)
  ]

  -- A statement that fails changes nothing.
  pub statement-eq-err :
      (p : Platform) (q : Db → Result (A × Db)) (w : World) {e : Error}
      → (statement p q w).0 ≡ err e
      → (statement p q w).1 ≡ next w
  statement-eq-err p q w h = statement-result-eq-err p q w (q w.db) refl h
