-- ===== src/Repo/Sessions.antt =====
-- internal/repo/postgres/sessions.go.
use shelf_auth.Prelude.{
  String, Bool, ◌&&◌, ◌||◌, not, none, some, is_some, [], ◌∷◌, ◌++◌, any, find, update, ◌==◌, ℕ_eq,
  String_eq, if◌then◌else◌, List, Option,
}
use shelf_auth.Platform.{Platform, EntityId, Time}
use shelf_auth.Errors.{Result, ok, err, sentinel, pg_error, no_rows, not_found, errors_is}
use shelf_auth.Domain.{Session}
use shelf_auth.Exec.{Db, Exec, ◌>>=◌, ◌>>◌, fresh, statement, transaction, relabel}
use shelf_auth.Repo.Users.{unique_violation}

-- UNIQUE (user_id, device_id, jti)
abbrev pub same_instance : Session → Session → Bool
same_instance s t = s.user_id == t.user_id && s.device_id == t.device_id && s.jti == t.jti

-- INSERT INTO sessions, under the constraints of the table.
unfoldable pub insert_row : Session → Db → Result (Unit {0} × Db)
insert_row s db =
    if any (λ t. t.id == s.id) db.sessions || any (λ t. same_instance t s) db.sessions
    then err (pg_error unique_violation)
    else if any (λ u. u.id == s.user_id) db.users
    then ok (tt, record db { sessions = db.sessions ++ s ∷ [] })
    else err (pg_error "23503")

-- The columns that the INSERT does not name take their defaults.
abbrev pub as_row : Session → EntityId → Session
as_row s id = record s { id = id; replaced_by = none; revoked_at = none }

-- UPDATE sessions SET … WHERE …
unfoldable pub update_rows : (Session → Bool) → (Session → Session) → Db → Result (Unit {0} × Db)
update_rows test set db = ok (tt, record db { sessions = update test set db.sessions })

abbrev pub set_revoked : Time → Session → Session
set_revoked at s = record s { revoked_at = some at }

abbrev pub set_replaced : EntityId → Session → Session
set_replaced id s = record s { replaced_by = some id }

-- The first row with a hash (the query's LIMIT 1).
abbrev pub by_hash : String → List Session → Option Session
by_hash hash sessions = find (λ s. s.refresh_hash == hash) sessions

abbrev pub select_session : String → Db → Result (Session × Db)
select_session hash db = elim (by_hash hash db.sessions) [
  | none ↦ err (sentinel no_rows)
  | some s ↦ ok (s, db)
]

abbrev pub missing_as_not_found : Result Session → Result Session
missing_as_not_found (ok s) = ok s
missing_as_not_found (err e) = if errors_is e no_rows then err (sentinel not_found) else err e

-- Begin and Commit, as far as they can fail.
abbrev pub no_change : Db → Result (Unit {0} × Db)
no_change db = ok (tt, db)

abbrev pub is_live_on : EntityId → String → Session → Bool
is_live_on user_id device_id s =
    s.user_id == user_id && s.device_id == device_id && not (is_some s.revoked_at)

abbrev pub is_live_with : String → Session → Bool
is_live_with hash s = s.refresh_hash == hash && not (is_some s.revoked_at)

module _ (p : Platform) where
  unfoldable pub create : Session → Exec (Unit {0})
  create s = do id ← fresh p; statement p (insert_row (as_row s id))

  unfoldable pub find_by_hash : String → Exec Session
  find_by_hash hash = relabel missing_as_not_found (statement p (select_session hash))

  -- replaced_by is a UUID column: the server parses the text that it is given.
  unfoldable pub link : String → String → Db → Result (Unit {0} × Db)
  link old_jti new_jti db = elim (p.parse_uuid new_jti) [
    | none ↦ err (pg_error "22P02")
    | some id ↦ update_rows (λ s. s.jti == old_jti) (set_replaced id) db
  ]

  unfoldable pub rotate : String → Session → Exec (Unit {0})
  rotate old_jti s = transaction do
    statement p no_change
    id ← fresh p
    statement p (insert_row (as_row s id))
    statement p (link old_jti s.jti)
    statement p no_change

  unfoldable pub revoke_all_by_user_and_device : EntityId → String → Time → Exec (Unit {0})
  revoke_all_by_user_and_device user_id device_id at =
      statement p (update_rows (is_live_on user_id device_id) (set_revoked at))

  unfoldable pub revoke_by_hash : String → Time → Exec (Unit {0})
  revoke_by_hash hash at = statement p (update_rows (is_live_with hash) (set_revoked at))
