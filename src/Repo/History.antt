-- ===== src/Repo/History.antt =====
-- How the tables may change: `Follows` relates the database before an operation of the
-- repositories to the database after it.
use shelf_auth.Prelude.{
  Bool, true, false, ◌≡◌, refl, ◌∙◌, sym, ◌||◌, ◌++◌, List, [], ◌∷◌, is_some, some, any, All,
  Distinct, any-append_left, append_one-Distinct, any-or, update-Distinct, update-All, map-All,
  changed, update, All-append, ◌==◌, ℕ_eq,
}
use mathlib.Core.List.{append-nil, append_assoc}
use shelf_auth.Exec.{Db, UserRow}
use shelf_auth.Exec.Preserves.{Preorder}
use shelf_auth.Platform.{Platform, EntityId, Time}
use shelf_auth.Domain.{Session}
use shelf_auth.Repo.Users.{has_email}
use shelf_auth.Repo.Sessions.{same_instance}

abbrev pub user_conflict : Platform → UserRow → UserRow → Bool
user_conflict p r s = has_email p s.email r || r.id == s.id

abbrev pub session_conflict : Session → Session → Bool
session_conflict s t = s.id == t.id || same_instance s t

abbrev pub is_user : List UserRow → EntityId → Bool
is_user users id = any (λ u. u.id == id) users

-- What the schema's constraints promise: keys are unique, and each session's user exists.
pub record IsWellFormed (p : Platform) (db : Db) : Type 0 where
  pub users_distinct : Distinct (user_conflict p) db.users
  pub sessions_distinct : Distinct session_conflict db.sessions
  pub owned : All (λ s. is_user db.users s.user_id ≡ true) db.sessions

-- A later state of the same session: only replaced_by and revoked_at may differ, what is set
-- stays set, and a revocation keeps its time.
pub record Ages (s t : Session) : Type 0 where
  pub same_id : t.id ≡ s.id
  pub same_user : t.user_id ≡ s.user_id
  pub same_device : t.device_id ≡ s.device_id
  pub same_jti : t.jti ≡ s.jti
  pub same_hash : t.refresh_hash ≡ s.refresh_hash
  pub same_start : t.created_at ≡ s.created_at
  pub same_end : t.expires_at ≡ s.expires_at
  pub same_ip : t.ip ≡ s.ip
  pub same_user_agent : t.user_agent ≡ s.user_agent
  pub stays_revoked : (at : Time) → s.revoked_at ≡ some at → t.revoked_at ≡ some at
  pub stays_replaced : is_some s.replaced_by ≡ true → is_some t.replaced_by ≡ true

-- No session is lost, each ages, and new ones come at the end.
abbrev pub Evolves : List Session → List Session → Type 0
Evolves [] ys = Unit
Evolves (x ∷ xs) [] = ⊥
Evolves (x ∷ xs) (y ∷ ys) = Ages x y × Evolves xs ys

pub record Follows (p : Platform) (a b : Db) : Type 0 where
  pub keeps_keys : IsWellFormed p a → IsWellFormed p b
  pub users_grow : (more : List UserRow) × (b.users ≡ a.users ++ more)
  pub evolves : Evolves a.sessions b.sessions

pub Ages-refl : (s : Session) → Ages s s
Ages-refl s = record {
  same_id = refl;
  same_user = refl;
  same_device = refl;
  same_jti = refl;
  same_hash = refl;
  same_start = refl;
  same_end = refl;
  same_ip = refl;
  same_user_agent = refl;
  stays_revoked = λ at h. h;
  stays_replaced = λ h. h;
}

pub Ages-trans : {s t u : Session} → Ages s t → Ages t u → Ages s u
Ages-trans g h = record {
  same_id = h.same_id ∙ g.same_id;
  same_user = h.same_user ∙ g.same_user;
  same_device = h.same_device ∙ g.same_device;
  same_jti = h.same_jti ∙ g.same_jti;
  same_hash = h.same_hash ∙ g.same_hash;
  same_start = h.same_start ∙ g.same_start;
  same_end = h.same_end ∙ g.same_end;
  same_ip = h.same_ip ∙ g.same_ip;
  same_user_agent = h.same_user_agent ∙ g.same_user_agent;
  stays_revoked = λ at e. h.stays_revoked at (g.stays_revoked at e);
  stays_replaced = λ e. h.stays_replaced (g.stays_replaced e);
}

Evolves-append : (xs ys : List Session) → Evolves xs (xs ++ ys)
Evolves-append [] ys = tt
Evolves-append (x ∷ xs) ys = (Ages-refl x, Evolves-append xs ys)

Evolves-refl : (xs : List Session) → Evolves xs xs
Evolves-refl [] = tt
Evolves-refl (x ∷ xs) = (Ages-refl x, Evolves-refl xs)

Evolves-trans : (xs ys zs : List Session) → Evolves xs ys → Evolves ys zs → Evolves xs zs
Evolves-trans [] ys zs g h = tt
Evolves-trans (x ∷ xs) [] zs g h = absurd g
Evolves-trans (x ∷ xs) (y ∷ ys) [] g h = h
Evolves-trans (x ∷ xs) (y ∷ ys) (z ∷ zs) g h = (Ages-trans g.0 h.0, Evolves-trans xs ys zs g.1 h.1)

Evolves-update :
    (test : Session → Bool) (f : Session → Session) (xs : List Session)
    → ((s : Session) → Ages s (changed test f s))
    → Evolves xs (update test f xs)
Evolves-update test f [] age = tt
Evolves-update test f (x ∷ xs) age = (age x, Evolves-update test f xs age)

module _ (p : Platform) where
  Follows-refl : (a : Db) → Follows p a a
  Follows-refl a = record {
    keeps_keys = λ v. v;
    users_grow = ([], sym (append-nil a.users));
    evolves = Evolves-refl a.sessions;
  }

  Follows-trans : {a b c : Db} → Follows p a b → Follows p b c → Follows p a c
  Follows-trans {a} {b} {c} g h = record {
    keeps_keys = λ v. h.keeps_keys (g.keeps_keys v);
    users_grow = (
      g.users_grow.0 ++ h.users_grow.0,
      rw (h.users_grow.1, g.users_grow.1) (append_assoc a.users g.users_grow.0 h.users_grow.0),
    );
    evolves = Evolves-trans a.sessions b.sessions c.sessions g.evolves h.evolves;
  }

  pub Follows-Preorder : Preorder (Follows p)
  Follows-Preorder = record { reflexive = Follows-refl; transitive = Follows-trans }

  -- A new user.
  pub append_user-Follows :
      (db : Db) (row : UserRow)
      → (any (has_email p row.email) db.users || any (λ r. r.id == row.id) db.users) ≡ false
      → Follows p db (record db { users = db.users ++ row ∷ [] })
  append_user-Follows db row h = record {
    keeps_keys = λ v. record {
      users_distinct =
          append_one-Distinct (user_conflict p) db.users row (any-or _ _ db.users ∙ h)
            v.users_distinct;
      sessions_distinct = v.sessions_distinct;
      owned = map-All (λ s e. any-append_left _ db.users (row ∷ []) e) db.sessions v.owned;
    };
    users_grow = (row ∷ [], refl);
    evolves = Evolves-refl db.sessions;
  }

  -- A new session.
  pub append_session-Follows :
      (db : Db) (s : Session)
      → (any (λ t. t.id == s.id) db.sessions || any (λ t. same_instance t s) db.sessions) ≡ false
      → is_user db.users s.user_id ≡ true
      → Follows p db (record db { sessions = db.sessions ++ s ∷ [] })
  append_session-Follows db s h k = record {
    keeps_keys = λ v. record {
      users_distinct = v.users_distinct;
      sessions_distinct =
          append_one-Distinct session_conflict db.sessions s (any-or _ _ db.sessions ∙ h)
            v.sessions_distinct;
      owned = All-append _ (s ∷ []) (k, tt) db.sessions v.owned;
    };
    users_grow = ([], sym (append-nil db.users));
    evolves = Evolves-append db.sessions (s ∷ []);
  }

  -- A change of rows that keeps their keys.
  pub update_sessions-Follows :
      (db : Db) (test : Session → Bool) (f : Session → Session)
      → ((s : Session) → Ages s (changed test f s))
      → Follows p db (record db { sessions = update test f db.sessions })
  update_sessions-Follows db test f age = record {
    keeps_keys = λ v. record {
      users_distinct = v.users_distinct;
      sessions_distinct =
          update-Distinct session_conflict test f db.sessions same v.sessions_distinct;
      owned = update-All test f (λ s e. rw ((age s).same_user) e) db.sessions v.owned;
    };
    users_grow = ([], sym (append-nil db.users));
    evolves = Evolves-update test f db.sessions age;
  }
    where
      same :
          (s t : Session)
          → session_conflict (changed test f s) (changed test f t) ≡ session_conflict s t
      same s t = rw (
        (age s).same_id,
        (age t).same_id,
        (age s).same_user,
        (age t).same_user,
        (age s).same_device,
        (age t).same_device,
        (age s).same_jti,
        (age t).same_jti,
      )
