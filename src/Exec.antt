-- ===== src/Exec.antt =====
-- Actions on the service's world: the two tables of the database, and the number of external
-- calls made so far, which picks the platform's next answer. An action returns the world beside an
-- error too: what was written before the error stays written.
pub mod Preserves
pub mod Inversion
pub mod Atomic
use shelf_auth.Prelude.{ℕ, suc, String, Bool, none, some, List}
use shelf_auth.Platform.{Platform, Time, EntityId}
use shelf_auth.Errors.{Result, ok, err, Error, failure}
use shelf_auth.Domain.{Session}

-- A row of users (migrations/001_init.up.sql).
pub record UserRow : Type 0 where
  pub id : EntityId
  pub email : String
  pub password_hash : String
  pub email_verified : Bool
  pub created_at : Time
  pub updated_at : Time

pub record Db : Type 0 where
  pub users : List UserRow
  pub sessions : List Session

pub record World : Type 0 where
  pub db : Db
  pub tick : ℕ

abbrev pub Exec {ℓ} : Type ℓ → Type ℓ
Exec A = World → Result A × World

module _ {ℓ} {A : Type ℓ} where
  unfoldable pub pure : A → Exec A
  pure a w = (ok a, w)

  unfoldable pub lift : Result A → Exec A
  lift r w = (r, w)

  unfoldable pub raise : Error → Exec A
  raise e w = (err e, w)

abbrev pub next : World → World
next w = record w { tick = suc w.tick }

-- time.Now().UTC()
unfoldable pub now : Platform → Exec Time
now p w = (ok (p.clock w.tick), next w)

-- uuid.New, and gen_random_uuid() of the database
unfoldable pub fresh : Platform → Exec EntityId
fresh p w = (ok (p.fresh_id w.tick), next w)

module _ {ℓ} {A : Type ℓ} where
  -- A function that is given the number of the call, which stands for its randomness.
  unfoldable pub random : (ℕ → Result A) → Exec A
  random f w = (f w.tick, next w)

  -- An action with another result.
  unfoldable pub relabel {κ} : {B : Type κ} → (Result A → Result B) → Exec A → Exec B
  relabel f m w = let (r, w') = m w in (f r, w')

  -- tx.Begin … tx.Commit with a deferred tx.Rollback.
  unfoldable pub transaction : Exec A → Exec A
  transaction body w =
      let (r, w') = body w in
      elim r [ ok a ↦ (ok a, w') | err e ↦ (err e, record w' { db = w.db }) ]

module _ {ℓ κ} {A : Type ℓ} {B : Type κ} where
  abbrev pub continue : Result A → (A → Exec B) → World → Result B × World
  continue (ok a) f w = f a w
  continue (err e) f w = (err e, w)

  infixl 5 ◌>>=◌ ◌>>◌
  -- Opening this opens the actions above.
  unfoldable pub ◌>>=◌ : Exec A → (A → Exec B) → Exec B
  unfolding pure lift raise now fresh random relabel transaction
  ◌>>=◌ m f w = let (r, w') = m w in continue r f w'

  abbrev pub ◌>>◌ : Exec A → Exec B → Exec B
  m >> k = m >>= λ _. k

module _ (p : Platform) where
  abbrev settle {ℓ} : {A : Type ℓ} → Result (A × Db) → World → Result A × World
  settle (ok (a, db)) w = (ok a, record w { db = db })
  settle (err e) w = (err e, w)

  -- One SQL statement. It may fail for a reason of its own (the connection, the server), and
  -- then it has changed nothing.
  unfoldable pub statement {ℓ} : {A : Type ℓ} → (Db → Result (A × Db)) → Exec A
  statement q w = elim (p.fault w.tick) [
    | none ↦ settle (q w.db) (next w)
    | some why ↦ (err (failure why), next w)
  ]
