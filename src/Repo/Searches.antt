-- ===== src/Repo/Searches.antt =====
-- How a search by hash fares while the sessions change.
use shelf_auth.Prelude.{
  String, List, ◌≡◌, some, arith, ◌∷◌, Bool-cases, ◌==◌, inl, inr, [], String_eq, true, ◌||◌, subst,
  text_eq_iff, Bool, ◌++◌, is_some, changed, Option-cases, update, ap, eq_of_some, none,
}
use shelf_auth.Domain.{Session}
use shelf_auth.Repo.History.{Evolves, Ages, Follows}
use shelf_auth.Repo.Sessions.{by_hash}
use shelf_auth.Exec.{Db}
use shelf_auth.Platform.{Platform}

pub by_hash-Evolves :
    (hash : String) (xs ys : List Session) {s : Session}
    → Evolves xs ys
    → by_hash hash xs ≡ some s
    → (t : Session) × (by_hash hash ys ≡ some t) × Ages s t
by_hash-Evolves hash [] ys v h = absurd (ground arith)
by_hash-Evolves hash (x ∷ xs) [] v h = absurd v
by_hash-Evolves hash (x ∷ xs) (y ∷ ys) {s} v h = elim (Bool-cases (x.refresh_hash == hash)) [
  | inl hit ↦ (y, rw (v.0.same_hash, hit), subst (λ a. Ages a y) (eq_of_some (rw hit at h)) v.0)
  | inr miss ↦ rw (v.0.same_hash, miss) (by_hash-Evolves hash xs ys v.1 (rw miss at h))
]

pub hash_of_by_hash :
    (hash : String) (xs : List Session) {s : Session}
    → by_hash hash xs ≡ some s
    → s.refresh_hash ≡ hash
hash_of_by_hash hash [] h = absurd (ground arith)
hash_of_by_hash hash (x ∷ xs) {s} h =
    ground (arith, hash_of_by_hash hash xs {s = s}, text_eq_iff x.refresh_hash hash)

-- The row that is found after an update is the row that was found before, updated.
pub by_hash-update :
    (hash : String) (test : Session → Bool) (f : Session → Session) (xs : List Session)
    {s : Session}
    → ((t : Session) → (changed test f t).refresh_hash ≡ t.refresh_hash)
    → by_hash hash xs ≡ some s
    → by_hash hash (update test f xs) ≡ some (changed test f s)
by_hash-update hash test f [] same h = absurd (ground arith)
by_hash-update hash test f (x ∷ xs) {s} same h = elim (Bool-cases (x.refresh_hash == hash)) [
  | inl hit ↦ rw (same x, hit) (ap (λ t. some (changed test f t)) (eq_of_some (rw hit at h)))
  | inr miss ↦ rw (same x, miss) (by_hash-update hash test f xs same (rw miss at h))
]

pub by_hash-append :
    (hash : String) (xs ys : List Session) {s : Session}
    → by_hash hash xs ≡ some s
    → by_hash hash (xs ++ ys) ≡ some s
by_hash-append hash [] ys h = absurd (ground arith)
by_hash-append hash (x ∷ xs) ys {s} h = ground (arith, by_hash-append hash xs ys {s = s})

-- A token whose session was rotated or revoked.
pub record IsSpent (hash : String) (db : Db) : Type 0 where
  pub session : Session
  pub found : by_hash hash db.sessions ≡ some session
  pub over : (is_some session.revoked_at || is_some session.replaced_by) ≡ true

pub Ages-over :
    (s t : Session)
    → Ages s t
    → (is_some s.revoked_at || is_some s.replaced_by) ≡ true
    → (is_some t.revoked_at || is_some t.replaced_by) ≡ true
Ages-over s t g h = elim (Option-cases s.revoked_at) [
  | inl unset ↦ ground (arith, g.stays_replaced)
  | inr (at, set) ↦ ground (arith, g.stays_revoked at set)
]

-- It stays so.
pub IsSpent-Follows :
    {p : Platform} {a b : Db} (hash : String) → Follows p a b → IsSpent hash a → IsSpent hash b
IsSpent-Follows {a = a} {b = b} hash f v =
    let (t, found, ages) = by_hash-Evolves hash a.sessions b.sessions f.evolves v.found in
    record { session = t; found = found; over = Ages-over v.session t ages v.over }

pub by_hash-append_new :
    (hash : String) (xs : List Session) (y : Session)
    → by_hash hash xs ≡ none
    → y.refresh_hash ≡ hash
    → by_hash hash (xs ++ y ∷ []) ≡ some y
by_hash-append_new hash [] y h e = ground (arith, text_eq_iff y.refresh_hash hash)
by_hash-append_new hash (x ∷ xs) y h e = ground (arith, by_hash-append_new hash xs y)
