-- ===== src/Repo/Preservation.antt =====
-- The operations of the repositories (internal/repo/postgres) and the relation `Follows`.
use shelf_auth.Repo.Users
use shelf_auth.Repo.Sessions
use shelf_auth.Domain.{Session, Email, User}
use shelf_auth.Platform.{Platform, Time, EntityId}
use shelf_auth.Prelude.{
  Bool, String, ◌≡◌, true, changed, is_some, arith, any, ◌++◌, update, Option-cases, false, ◌∷◌,
  inl, ◌||◌, [], inr, ◌==◌, Bool-cases, ℕ_eq, String_eq,
}
use shelf_auth.Exec.Preserves.{
  Preorder, Preserves, bind-Preserves, relabel-Preserves, transaction-Preserves,
  statement-Preserves, lift-Preserves, fresh-Preserves, pure-Preserves,
}
use shelf_auth.Exec.{UserRow, Db, statement}
use shelf_auth.Repo.Sessions.{
  update_rows, link, create, find_by_hash, rotate, revoke_all_by_user_and_device, revoke_by_hash,
  select_session, set_replaced, missing_as_not_found, no_change, set_revoked, as_row, is_live_on,
  is_live_with,
}
use shelf_auth.Repo.Users.{
  find_by_email, find_by_id, insert, select_user, try_insert, has_email, map_violation, user_row,
}
use shelf_auth.Repo.History.{
  Follows, Ages, Follows-Preorder, update_sessions-Follows, append_session-Follows,
  append_user-Follows,
}
use shelf_auth.Errors.{ok}

pub Ages-set_revoked :
    (test : Session → Bool) (at : Time) (s : Session)
    → (test s ≡ true → is_some s.revoked_at ≡ false)
    → Ages s (changed test (set_revoked at) s)
Ages-set_revoked test at s h = record {
  same_id = ground arith;
  same_user = ground arith;
  same_device = ground arith;
  same_jti = ground arith;
  same_hash = ground arith;
  same_start = ground arith;
  same_end = ground arith;
  same_ip = ground arith;
  same_user_agent = ground arith;
  stays_revoked = λ t e. ground arith;
  stays_replaced = λ e. ground arith;
}

pub Ages-set_replaced :
    (test : Session → Bool) (id : EntityId) (s : Session)
    → Ages s (changed test (set_replaced id) s)
Ages-set_replaced test id s = record {
  same_id = ground arith;
  same_user = ground arith;
  same_device = ground arith;
  same_jti = ground arith;
  same_hash = ground arith;
  same_start = ground arith;
  same_end = ground arith;
  same_ip = ground arith;
  same_user_agent = ground arith;
  stays_revoked = λ t e. ground arith;
  stays_replaced = λ e. ground arith;
}

module _ (p : Platform) where
  order : Preorder (Follows p)
  order = Follows-Preorder p

  select_user-Follows :
      (test : UserRow → Bool) (r : UserRow) (d d' : Db)
      → select_user test d ≡ ok (r, d')
      → Follows p d d'
  select_user-Follows test r d d' e = rw (← same) (order.reflexive d)
    where
      same : d ≡ d'
      same = ground arith

  select_session-Follows :
      (hash : String) (s : Session) (d d' : Db)
      → select_session hash d ≡ ok (s, d')
      → Follows p d d'
  select_session-Follows hash s d d' e = rw (← same) (order.reflexive d)
    where
      same : d ≡ d'
      same = ground arith

  insert_user-Follows :
      (row : UserRow) (id : EntityId) (d d' : Db)
      → Users.insert_row p row d ≡ ok (id, d')
      → Follows p d d'
  unfolding Users.insert_row
  insert_user-Follows row id d d' e =
      elim (Bool-cases (any (has_email p row.email) d.users || any (λ r. r.id == row.id) d.users)) [
        | inl taken ↦ ground arith
        | inr free ↦ rw (← same free) (append_user-Follows p d row free)
      ]
    where
      same :
          (any (has_email p row.email) d.users || any (λ r. r.id == row.id) d.users) ≡ false
          → record d { users = d.users ++ row ∷ [] } ≡ d'
      same free = ground arith

  insert_session-Follows :
      (s : Session) (u : Unit {0}) (d d' : Db)
      → Sessions.insert_row s d ≡ ok (u, d')
      → Follows p d d'
  unfolding Sessions.insert_row
  insert_session-Follows s u d d' e =
      rw (← same) (append_session-Follows p d s (ground arith) (ground arith))
    where
      same : record d { sessions = d.sessions ++ s ∷ [] } ≡ d'
      same = ground arith

  update_rows-Follows :
      (test : Session → Bool) (f : Session → Session)
      → ((s : Session) → Ages s (changed test f s))
      → (u : Unit {0}) (d d' : Db) → update_rows test f d ≡ ok (u, d')
      → Follows p d d'
  unfolding update_rows
  update_rows-Follows test f age u d d' e = rw (← same) (update_sessions-Follows p d test f age)
    where
      same : record d { sessions = update test f d.sessions } ≡ d'
      same = ground arith

  link-Follows :
      (old new : String) (u : Unit {0}) (d d' : Db) → link p old new d ≡ ok (u, d') → Follows p d d'
  unfolding link
  link-Follows old new u d d' e = elim (Option-cases (p.parse_uuid new)) [
    | inl bad ↦ absurd (ground arith)
    | inr (id, good) ↦
        update_rows-Follows (λ s. s.jti == old) (set_replaced id) (Ages-set_replaced _ id) u d d'
          (ground arith)
  ]

  pub find_by_email-Preserves : (email : Email) → Preserves (Follows p) (find_by_email p email)
  unfolding find_by_email
  find_by_email-Preserves email =
      bind-Preserves order _ _ (statement-Preserves order p _ (select_user-Follows _))
        λ r. bind-Preserves order _ _ (lift-Preserves order _) λ e. pure-Preserves order _

  pub find_by_id-Preserves : (id : EntityId) → Preserves (Follows p) (find_by_id p id)
  unfolding find_by_id
  find_by_id-Preserves id =
      bind-Preserves order _ _ (statement-Preserves order p _ (select_user-Follows _))
        λ r. bind-Preserves order _ _ (lift-Preserves order _) λ e. pure-Preserves order _

  pub insert-Preserves : (u : User) → Preserves (Follows p) (insert p u)
  unfolding insert
  insert-Preserves u = relabel-Preserves order map_violation _ (
      bind-Preserves order _ _ (fresh-Preserves order p)
        λ id. statement-Preserves order p _ (insert_user-Follows (user_row u id)))

  pub create-Preserves : (s : Session) → Preserves (Follows p) (create p s)
  unfolding create
  create-Preserves s =
      bind-Preserves order _ _ (fresh-Preserves order p)
        λ id. statement-Preserves order p _ (insert_session-Follows (as_row s id))

  pub find_by_hash-Preserves : (hash : String) → Preserves (Follows p) (find_by_hash p hash)
  unfolding find_by_hash
  find_by_hash-Preserves hash =
      relabel-Preserves order missing_as_not_found _
        (statement-Preserves order p _ (select_session-Follows hash))

  no_change-Preserves : Preserves (Follows p) (statement p no_change)
  no_change-Preserves =
      statement-Preserves order p no_change λ u d d' e. rw (← same d d' e) (order.reflexive d)
    where
      same : (d d' : Db) {u : Unit {0}} → no_change d ≡ ok (u, d') → d ≡ d'
      same d d' e = ground arith

  pub rotate-Preserves : (old : String) (s : Session) → Preserves (Follows p) (rotate p old s)
  unfolding rotate
  rotate-Preserves old s = transaction-Preserves order _ (
      bind-Preserves order _ _ no_change-Preserves λ _.
        bind-Preserves order _ _ (fresh-Preserves order p) λ id.
          bind-Preserves order _ _
            (statement-Preserves order p _ (insert_session-Follows (as_row s id)))
            λ _.
              bind-Preserves order _ _ (statement-Preserves order p _ (link-Follows old s.jti))
                λ _. no_change-Preserves)

  pub revoke_all-Preserves :
      (user_id : EntityId) (device_id : String) (at : Time)
      → Preserves (Follows p) (revoke_all_by_user_and_device p user_id device_id at)
  unfolding revoke_all_by_user_and_device
  revoke_all-Preserves user_id device_id at = statement-Preserves order p _ (
      update_rows-Follows (is_live_on user_id device_id) (set_revoked at)
        (λ s. Ages-set_revoked (is_live_on user_id device_id) at s (λ h. ground arith)))

  pub revoke_by_hash-Preserves :
      (hash : String) (at : Time) → Preserves (Follows p) (revoke_by_hash p hash at)
  unfolding revoke_by_hash
  revoke_by_hash-Preserves hash at = statement-Preserves order p _ (
      update_rows-Follows (is_live_with hash) (set_revoked at)
        (λ s. Ages-set_revoked (is_live_with hash) at s (λ h. ground arith)))
