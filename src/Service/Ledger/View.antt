-- ===== src/Service/Ledger/View.antt =====
-- The sessions of the database as a ledger, and the statements on them (internal/repo/postgres/sessions.go)
-- as changes of it.
use shelf_auth.Prelude.{
  none, some, ◌∷◌, [], String_eq, ℕ_eq, refl, inl, inr, Option, List, String, ◌++◌, Bool, is_some,
  ◌≡◌, changed, update, arith, fun_ext, Bool-cases, ◌==◌, ap, ◌∙◌, text_eq_iff,
}
use shelf_auth.Domain.{Session}
use shelf_auth.Platform.{EntityId, Time}
use shelf_auth.Service.Ledger.{
  Grant, Ledger, grant, revise, apply, exchanged, ended, withdrawn, end_at, withdraw, spend,
}
use shelf_auth.Repo.Rotation.{rotated}
use shelf_auth.Repo.Sessions.{by_hash, is_live_with, is_live_on, set_revoked, set_replaced}

abbrev pub grant_of : Session → Grant
grant_of t = record {
  user_id = t.user_id;
  device_id = t.device_id;
  jti = t.jti;
  spent = is_some t.replaced_by;
  revoked = is_some t.revoked_at;
}

abbrev pub seen : Option Session → Option Grant
seen none = none
seen (some t) = some (grant_of t)

abbrev pub view : List Session → Ledger
view rows hash = seen (by_hash hash rows)

view_at-append :
    (hash : String) (rows : List Session) (row : Session)
    → view (rows ++ row ∷ []) hash ≡ grant row.refresh_hash (grant_of row) (view rows) hash
view_at-append hash [] row = ground arith
view_at-append hash (x ∷ rows) row = elim (Bool-cases (x.refresh_hash == hash)) [
  | inl hit ↦ rw hit refl
  | inr miss ↦ rw miss (view_at-append hash rows row)
]

pub view-append :
    (rows : List Session) (row : Session)
    → view (rows ++ row ∷ []) ≡ grant row.refresh_hash (grant_of row) (view rows)
view-append rows row = fun_ext λ hash. view_at-append hash rows row

view_at-update :
    (test : Session → Bool) (f : Session → Session) (k : String → Grant → Grant) (hash : String)
    (rows : List Session)
    → ((t : Session) → (changed test f t).refresh_hash ≡ t.refresh_hash)
    → ((t : Session) → grant_of (changed test f t) ≡ k t.refresh_hash (grant_of t))
    → view (update test f rows) hash ≡ revise k (view rows) hash
view_at-update test f k hash [] same as_grant = refl
view_at-update test f k hash (x ∷ rows) same as_grant = elim (Bool-cases (x.refresh_hash == hash)) [
  | inl hit ↦
      rw (same x, hit)
        (ap some (as_grant x)
          ∙ ap (λ h. some (k h (grant_of x))) ((text_eq_iff x.refresh_hash hash).0 hit))
  | inr miss ↦ rw (same x, miss) (view_at-update test f k hash rows same as_grant)
]

pub view-update :
    (test : Session → Bool) (f : Session → Session) (k : String → Grant → Grant)
    (rows : List Session)
    → ((t : Session) → (changed test f t).refresh_hash ≡ t.refresh_hash)
    → ((t : Session) → grant_of (changed test f t) ≡ k t.refresh_hash (grant_of t))
    → view (update test f rows) ≡ revise k (view rows)
view-update test f k rows same as_grant =
    fun_ext λ hash. view_at-update test f k hash rows same as_grant

-- A logout's statement, the one of a replay, and a rotation.
pub view-end :
    (hash : String) (at : Time) (rows : List Session)
    → view (update (is_live_with hash) (set_revoked at) rows) ≡ apply (ended hash) (view rows)
view-end hash at rows =
    view-update (is_live_with hash) (set_revoked at) (end_at hash) rows (λ t. ground arith)
      (λ t. ground arith)

pub view-withdraw :
    (user_id : EntityId) (device_id : String) (at : Time) (rows : List Session)
    → view (update (is_live_on user_id device_id) (set_revoked at) rows)
      ≡ apply (withdrawn user_id device_id) (view rows)
view-withdraw user_id device_id at rows =
    view-update (is_live_on user_id device_id) (set_revoked at) (λ h. withdraw user_id device_id)
      rows (λ t. ground arith) (λ t. ground arith)

pub view-rotated :
    (old row : Session) (link_id : EntityId) (rows : List Session)
    → view (rotated old.jti link_id row rows)
      ≡ apply (exchanged (grant_of old) row.refresh_hash (grant_of row)) (view rows)
view-rotated old row link_id rows =
    view-update (λ t. t.jti == old.jti) (set_replaced link_id) (λ h. spend old.jti)
      (rows ++ row ∷ []) (λ t. ground arith) (λ t. ground arith)
    ∙ ap (revise (λ h. spend old.jti)) (view-append rows row)
