-- ===== src/Repo/Users.antt =====
-- internal/repo/postgres/users.go.
use shelf_auth.Prelude.{
  String, Bool, ◌||◌, none, some, [], ◌∷◌, ◌++◌, any, find, ◌==◌, ℕ_eq, String_eq, if◌then◌else◌,
}
use shelf_auth.Platform.{Platform, EntityId}
use shelf_auth.Errors.{
  Result, ok, err, sentinel, wrap, pg_error, no_rows, email_already_taken, has_pg_code,
}
use shelf_auth.Domain.{Email, User, parse_email}
use shelf_auth.Exec.{UserRow, Db, Exec, pure, lift, ◌>>=◌, fresh, statement, relabel}

-- unique_violation
abbrev pub unique_violation : String
unique_violation = "23505"

-- SELECT … FROM users WHERE …
abbrev pub select_user : (UserRow → Bool) → Db → Result (UserRow × Db)
select_user test db = elim (find test db.users) [
  | none ↦ err (sentinel no_rows)
  | some r ↦ ok (r, db)
]

abbrev pub with_context : Result Email → Result Email
with_context (ok e) = ok e
with_context (err e) = err (wrap "parse email from db" e)

abbrev pub map_violation : Result EntityId → Result EntityId
map_violation (ok id) = ok id
map_violation (err e) =
    if has_pg_code e unique_violation then err (sentinel email_already_taken) else err e

-- The columns that the INSERT gives, and the generated id.
abbrev pub user_row : User → EntityId → UserRow
user_row u id = record {
  id = id;
  email = u.email.value;
  password_hash = u.password_hash;
  email_verified = u.email_verified;
  created_at = u.created_at;
  updated_at = u.updated_at;
}

module _ (p : Platform) where
  abbrev pub has_email : String → UserRow → Bool
  has_email email r = p.citext r.email == p.citext email

  unfoldable pub find_by_email : Email → Exec User
  find_by_email email = do
    r ← statement p (select_user (has_email email.value))
    parsed ← lift (with_context (parse_email p r.email))
    pure (record {
      id = r.id;
      email = parsed;
      password_hash = r.password_hash;
      email_verified = r.email_verified;
      created_at = r.created_at;
      updated_at = r.updated_at;
    })

  -- Columns that are not selected keep Go's zero values.
  unfoldable pub find_by_id : EntityId → Exec User
  find_by_id id = do
    r ← statement p (select_user (λ r. r.id == id))
    parsed ← lift (with_context (parse_email p r.email))
    pure (record {
      id = r.id;
      email = parsed;
      password_hash = "";
      email_verified = r.email_verified;
      created_at = 0;
      updated_at = 0;
    })

  -- INSERT INTO users … RETURNING id, under PRIMARY KEY (id) and UNIQUE (email).
  unfoldable pub insert_row : UserRow → Db → Result (EntityId × Db)
  insert_row row db =
      if any (has_email row.email) db.users || any (λ r. r.id == row.id) db.users
      then err (pg_error unique_violation)
      else ok (row.id, record db { users = db.users ++ row ∷ [] })

  abbrev pub try_insert : User → Exec EntityId
  try_insert u = do id ← fresh p; statement p (insert_row (user_row u id))

  unfoldable pub insert : User → Exec EntityId
  insert u = relabel map_violation (try_insert u)
