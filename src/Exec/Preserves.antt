-- ===== src/Exec/Preserves.antt =====
-- Actions that change the database along a preorder, whatever their result: a rule for each way in
-- which the service builds them.
use shelf_auth.Exec.{
  Db, World, Exec, pure, ◌>>=◌, statement, transaction, lift, raise, now, fresh, continue, random,
  relabel,
}
use shelf_auth.Errors.{Result, Error, ok, err}
use shelf_auth.Platform.{Platform}
use shelf_auth.Prelude.{ℕ, ◌≡◌, Option-cases, inl, refl, inr, Bool, if◌then◌else◌, true, false}

pub record Preorder (R : Db → Db → Type 0) : Type 0 where
  pub reflexive : (a : Db) → R a a
  pub transitive : {a b c : Db} → R a b → R b c → R a c

-- A record, so that the action is determined by the type.
pub record Preserves {ℓ} {A : Type ℓ} (R : Db → Db → Type 0) (m : Exec A) : Type ℓ where
  pub at : (w : World) → R w.db (m w).1.db

module _ {R : Db → Db → Type 0} (order : Preorder R) where
  pub pure-Preserves {ℓ} : {A : Type ℓ} (a : A) → Preserves R (pure a)
  unfolding pure
  pure-Preserves a = record { at = λ w. order.reflexive w.db }

  pub lift-Preserves {ℓ} : {A : Type ℓ} (r : Result A) → Preserves R (lift r)
  unfolding lift
  lift-Preserves r = record { at = λ w. order.reflexive w.db }

  pub raise-Preserves {ℓ} : {A : Type ℓ} (e : Error) → Preserves {A = A} R (raise e)
  unfolding raise
  raise-Preserves e = record { at = λ w. order.reflexive w.db }

  pub now-Preserves : (p : Platform) → Preserves R (now p)
  unfolding now
  now-Preserves p = record { at = λ w. order.reflexive w.db }

  pub fresh-Preserves : (p : Platform) → Preserves R (fresh p)
  unfolding fresh
  fresh-Preserves p = record { at = λ w. order.reflexive w.db }

  pub random-Preserves {ℓ} : {A : Type ℓ} (f : ℕ → Result A) → Preserves R (random f)
  unfolding random
  random-Preserves f = record { at = λ w. order.reflexive w.db }

  pub relabel-Preserves {ℓ κ} :
      {A : Type ℓ} {B : Type κ} (f : Result A → Result B) (m : Exec A)
      → Preserves R m
      → Preserves R (relabel f m)
  unfolding relabel
  relabel-Preserves f m h = record { at = λ w. h.at w }

  continue-keeps {ℓ κ} :
      {A : Type ℓ} {B : Type κ} (r : Result A) (f : A → Exec B) (d : Db) (w : World)
      → R d w.db
      → ((a : A) → Preserves R (f a))
      → R d (continue r f w).1.db
  continue-keeps (ok a) f d w h k = order.transitive h ((k a).at w)
  continue-keeps (err e) f d w h k = h

  pub bind-Preserves {ℓ κ} :
      {A : Type ℓ} {B : Type κ} (m : Exec A) (f : A → Exec B)
      → Preserves R m
      → ((a : A) → Preserves R (f a))
      → Preserves R (m >>= f)
  unfolding ◌>>=◌
  bind-Preserves m f h k = record { at = λ w. continue-keeps (m w).0 f w.db (m w).1 (h.at w) k }

  pub if-Preserves {ℓ} :
      {A : Type ℓ} (b : Bool) (m n : Exec A)
      → Preserves R m
      → Preserves R n
      → Preserves R (if b then m else n)
  if-Preserves true m n h k = h
  if-Preserves false m n h k = k

  statement-keeps {ℓ} :
      {A : Type ℓ} (p : Platform) (q : Db → Result (A × Db)) (w : World)
      → ((a : A) (d : Db) → q w.db ≡ ok (a, d) → R w.db d)
      → (r : Result (A × Db)) → q w.db ≡ r
      → R w.db (statement p q w).1.db
  unfolding statement
  statement-keeps p q w h (ok (a, d)) e = elim (Option-cases (p.fault w.tick)) [
    | inl works ↦ rw (works, statement, e) (h a d e)
    | inr (why, fails) ↦ rw (fails, statement) (order.reflexive w.db)
  ]
  statement-keeps p q w h (err e') e = elim (Option-cases (p.fault w.tick)) [
    | inl works ↦ rw (works, statement, e) (order.reflexive w.db)
    | inr (why, fails) ↦ rw (fails, statement) (order.reflexive w.db)
  ]

  pub statement-Preserves {ℓ} :
      (p : Platform) {A : Type ℓ} (q : Db → Result (A × Db))
      → ((a : A) (d d' : Db) → q d ≡ ok (a, d') → R d d')
      → Preserves R (statement p q)
  statement-Preserves p q h = record {
    at = λ w. statement-keeps p q w (λ a d e. h a w.db d e) (q w.db) refl;
  }

  transaction-keeps {ℓ} :
      {A : Type ℓ} (body : Exec A) (w : World)
      → R w.db (body w).1.db
      → (r : Result A) → (body w).0 ≡ r
      → R w.db (transaction body w).1.db
  unfolding transaction
  transaction-keeps body w h (ok a) e = rw (e, transaction) h
  transaction-keeps body w h (err x) e = rw (e, transaction) (order.reflexive w.db)

  pub transaction-Preserves {ℓ} :
      {A : Type ℓ} (body : Exec A) → Preserves R body → Preserves R (transaction body)
  transaction-Preserves body h = record {
    at = λ w. transaction-keeps body w (h.at w) (body w).0 refl;
  }
