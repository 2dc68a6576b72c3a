-- ===== src/Service/Calls/Soundness.antt =====
-- What the service (internal/service) keeps true of its tables beyond the constraints of the schema: which accounts
-- there are, and whose sessions.
use shelf_auth.Prelude.{
  some, ◌∷◌, [], String_eq, ℕ_eq, refl, inl, inr, List, Bool, String, any, find, All, ◌==◌, ◌≡◌,
  ◌&&◌, true, arith, subst, changed, ◌++◌, trim_space, Bool-cases, sym, update, ◌+◌, nat_eq_iff,
  update-All, All-append, ◌∙◌, map-All, ap, any-append_left, is_some, false,
}
use shelf_auth.Exec.{UserRow, Db}
use shelf_auth.Platform.{Platform, EntityId, Duration, Time}
use shelf_auth.Domain.{Session}
use shelf_auth.Repo.Sessions.{by_hash, set_revoked, set_replaced}
use shelf_auth.Repo.History.{Ages}
use shelf_auth.Repo.Rotation.{rotated}
use shelf_auth.Repo.Preservation.{Ages-set_revoked, Ages-set_replaced}

abbrev pub is_verified : List UserRow → EntityId → Bool
is_verified users id = any (λ u. u.id == id && u.email_verified) users

-- The address of an account has the form of one, without white space around it; a session is that of an
-- account with a verified address, and ends the refresh TTL after its start.
pub record IsSound (p : Platform) (ttl : Duration) (db : Db) : Type 0 where
  pub accounts : All (λ u. (p.is_address u.email ≡ true) × (trim_space u.email ≡ u.email)) db.users
  pub sessions :
      All
        (λ t. (t.expires_at ≡ t.created_at + ttl) × (is_verified db.users t.user_id ≡ true))
        db.sessions

-- A change that leaves a sound database sound.
abbrev pub KeepsSound : Platform → Duration → Db → Db → Type 0
KeepsSound p ttl a b = IsSound p ttl a → IsSound p ttl b

pub is_verified-of_found :
    (test : UserRow → Bool) (users : List UserRow) (row : UserRow)
    → find test users ≡ some row
    → row.email_verified ≡ true
    → is_verified users row.id ≡ true
is_verified-of_found test [] row h v = absurd (ground arith)
is_verified-of_found test (x ∷ users) row h v = elim (Bool-cases (test x)) [
  | inl hit ↦
      let same : x ≡ row = ground arith in
      subst (λ y. is_verified (y ∷ users) row.id ≡ true) (sym same)
        (ground (arith, nat_eq_iff row.id row.id))
  | inr miss ↦ let later = is_verified-of_found test users row (ground arith) v in ground arith
]

pub All-of_by_hash {ℓ} :
    (P : Session → Type ℓ) (hash : String) (xs : List Session) (t : Session)
    → All P xs
    → by_hash hash xs ≡ some t
    → P t
All-of_by_hash P hash [] t a h = absurd (ground arith)
All-of_by_hash P hash (x ∷ xs) t a h = elim (Bool-cases (x.refresh_hash == hash)) [
  | inl hit ↦ let same : x ≡ t = ground arith in subst P same a.0
  | inr miss ↦ All-of_by_hash P hash xs t a.1 (ground arith)
]

module _ (p : Platform) (ttl : Duration) where
  pub KeepsSound-of_same : (a b : Db) → b ≡ a → KeepsSound p ttl a b
  KeepsSound-of_same a b same v = subst (IsSound p ttl) (sym same) v

  -- A change of rows that keeps their owners and times.
  update-KeepsSound :
      (a : Db) (test : Session → Bool) (f : Session → Session)
      → ((t : Session) → Ages t (changed test f t))
      → KeepsSound p ttl a (record a { sessions = update test f a.sessions })
  update-KeepsSound a test f age v = record {
    accounts = v.accounts;
    sessions =
        update-All test f
          (λ t h. (
            (age t).same_end ∙ h.0 ∙ ap (λ x. x + ttl) (sym (age t).same_start),
            rw (age t).same_user h.1,
          ))
          a.sessions v.sessions;
  }

  pub revoke-KeepsSound :
      (a : Db) (test : Session → Bool) (at : Time)
      → ((t : Session) → test t ≡ true → is_some t.revoked_at ≡ false)
      → KeepsSound p ttl a (record a { sessions = update test (set_revoked at) a.sessions })
  revoke-KeepsSound a test at live =
      update-KeepsSound a test (set_revoked at) (λ t. Ages-set_revoked test at t (live t))

  pub session-KeepsSound :
      (a b : Db) (t : Session)
      → b.users ≡ a.users
      → b.sessions ≡ a.sessions ++ t ∷ []
      → t.expires_at ≡ t.created_at + ttl
      → is_verified a.users t.user_id ≡ true
      → KeepsSound p ttl a b
  session-KeepsSound a b t same added end owner v = record {
    accounts = rw same v.accounts;
    sessions = rw (same, added) (All-append _ (t ∷ []) ((end, owner), tt) a.sessions v.sessions);
  }

  pub rotation-KeepsSound :
      (a b : Db) (t : Session) (old_jti : String) (id : EntityId)
      → b.users ≡ a.users
      → b.sessions ≡ rotated old_jti id t a.sessions
      → t.expires_at ≡ t.created_at + ttl
      → is_verified a.users t.user_id ≡ true
      → KeepsSound p ttl a b
  rotation-KeepsSound a b t old_jti id same moved end owner v =
      let mid = record a { sessions = a.sessions ++ t ∷ [] } in
      let added = session-KeepsSound a mid t refl refl end owner v in
      let linked =
        update-KeepsSound mid (λ x. x.jti == old_jti) (set_replaced id) (Ages-set_replaced _ id)
          added in
      record { accounts = rw same linked.accounts; sessions = rw (same, moved) linked.sessions }

  pub account-KeepsSound :
      (a b : Db) (u : UserRow)
      → b.users ≡ a.users ++ u ∷ []
      → b.sessions ≡ a.sessions
      → p.is_address u.email ≡ true
      → trim_space u.email ≡ u.email
      → KeepsSound p ttl a b
  account-KeepsSound a b u added same address trimmed v = record {
    accounts = rw added (All-append _ (u ∷ []) ((address, trimmed), tt) a.users v.accounts);
    sessions =
        rw (same, added)
          (map-All (λ t h. (h.0, any-append_left _ a.users (u ∷ []) h.1)) a.sessions v.sessions);
  }

  pub is_verified-of_hash :
      (a : Db) (hash : String) (t : Session)
      → IsSound p ttl a
      → by_hash hash a.sessions ≡ some t
      → is_verified a.users t.user_id ≡ true
  is_verified-of_hash a hash t v found =
      (All-of_by_hash
        (λ t. (t.expires_at ≡ t.created_at + ttl) × (is_verified a.users t.user_id ≡ true)) hash
        a.sessions t v.sessions found).1
