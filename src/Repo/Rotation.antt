-- ===== src/Repo/Rotation.antt =====
-- SessionsRepo.Rotate (internal/repo/postgres/sessions.go) as a whole.
use shelf_auth.Prelude.{
  String, List, update, ◌≡◌, ◌==◌, some, any, ◌++◌, Option-cases, ◌∷◌, false, inl, [], arith,
  String_eq, true, inr, any-or, ◌∙◌, ℕ_eq, subst,
}
use shelf_auth.Platform.{Platform, EntityId}
use shelf_auth.Repo.Sessions.{
  insert_row, link, update_rows, rotate, set_replaced, as_row, no_change, same_instance, create,
}
use shelf_auth.Domain.{Session}
use shelf_auth.Exec.{Db, World, fresh}
use shelf_auth.Errors.{ok}
use shelf_auth.Exec.Inversion.{transaction-eq-ok, bind-eq-ok, statement-eq-ok}
use shelf_auth.Repo.History.{session_conflict, is_user}

-- The sessions after a rotation: a new row, and the rows of the old token linked to it.
abbrev pub rotated : String → EntityId → Session → List Session → List Session
rotated old_jti link_id row sessions =
    update (λ t. t.jti == old_jti) (set_replaced link_id) (sessions ++ row ∷ [])

pub record Rotates (p : Platform) (old_jti : String) (s : Session) (before after : Db)
    : Type 0 where
  pub row_id : EntityId
  pub link_id : EntityId
  pub parsed : p.parse_uuid s.jti ≡ some link_id
  pub unused : any (λ t. session_conflict t (as_row s row_id)) before.sessions ≡ false
  pub owned : is_user before.users s.user_id ≡ true
  pub users : after.users ≡ before.users
  pub sessions : after.sessions ≡ rotated old_jti link_id (as_row s row_id) before.sessions

pub insert_row-eq-ok :
    (s : Session) (d d' : Db) {u : Unit {0}}
    → insert_row s d ≡ ok (u, d')
    → (any (λ t. session_conflict t s) d.sessions ≡ false)
      × (is_user d.users s.user_id ≡ true)
      × (d' ≡ record d { sessions = d.sessions ++ s ∷ [] })
unfolding insert_row
insert_row-eq-ok s d d' h = (
  any-or (λ t. t.id == s.id) (λ t. same_instance t s) d.sessions ∙ ground arith,
  ground arith,
  ground arith,
)

link-eq-ok :
    (p : Platform) (old new : String) (d d' : Db) {u : Unit {0}}
    → link p old new d ≡ ok (u, d')
    → (id : EntityId) × (p.parse_uuid new ≡ some id)
      × (d' ≡ record d { sessions = update (λ t. t.jti == old) (set_replaced id) d.sessions })
unfolding link update_rows
link-eq-ok p old new d d' h = elim (Option-cases (p.parse_uuid new)) [
  | inl bad ↦ absurd (ground arith)
  | inr (id, good) ↦ (id, good, ground arith)
]

no_change-eq-ok : (d d' : Db) {u : Unit {0}} → no_change d ≡ ok (u, d') → d' ≡ d
no_change-eq-ok d d' h = ground arith

module _ (p : Platform) (old_jti : String) (s : Session) where
  Rotates-of_parts :
      (id : EntityId) (d d0 d1 d2 d3 : Db) {u u' : Unit {0}}
      → d0 ≡ d
      → insert_row (as_row s id) d0 ≡ ok (u, d1)
      → link p old_jti s.jti d1 ≡ ok (u', d2)
      → d3 ≡ d2
      → Rotates p old_jti s d d3
  Rotates-of_parts id d d0 d1 d2 d3 e0 e1 e2 e3 =
      let (unused, owned, f1) = insert_row-eq-ok (as_row s id) d0 d1 e1 in
      let (link_id, parsed, f2) = link-eq-ok p old_jti s.jti d1 d2 e2 in
      record {
        row_id = id;
        link_id = link_id;
        parsed = parsed;
        unused =
            subst (λ x. any (λ t. session_conflict t (as_row s id)) x.sessions ≡ false) e0 unused;
        owned = subst (λ x. is_user x.users s.user_id ≡ true) e0 owned;
        users = ground arith;
        sessions = ground arith;
      }

  module _ (w : World) where
    -- A rotation that reports success inserted the new session and linked the old token's rows.
    pub rotate-eq-ok :
        {u : Unit {0}}
        → (rotate p old_jti s w).0 ≡ ok u
        → Rotates p old_jti s w.db (rotate p old_jti s w).1.db
    unfolding rotate fresh
    rotate-eq-ok h =
        let (h', world) = transaction-eq-ok _ w h in
        let begin = bind-eq-ok _ _ w h' in
        let gen = bind-eq-ok _ _ _ begin.rest in
        let ins = bind-eq-ok _ _ _ gen.rest in
        let lnk = bind-eq-ok _ _ _ ins.rest in
        rw (world, begin.whole, gen.whole, ins.whole, lnk.whole)
          (Rotates-of_parts gen.value w.db _ _ _ _
            (no_change-eq-ok _ _ (statement-eq-ok p no_change w begin.first))
            (statement-eq-ok p _ _ ins.first) (statement-eq-ok p _ _ lnk.first)
            (no_change-eq-ok _ _ (statement-eq-ok p no_change _ lnk.rest)))

-- A creation that reports success added the session, with an id of the database's.
pub create-eq-ok :
    (p : Platform) (s : Session) (w : World) {u : Unit {0}}
    → (create p s w).0 ≡ ok u
    → (id : EntityId) × ((create p s w).1.db
        ≡ record w.db { sessions = w.db.sessions ++ as_row s id ∷ [] })
unfolding create fresh
create-eq-ok p s w h =
    let gen = bind-eq-ok _ _ w h in
    let (_, _, added) =
      insert_row-eq-ok (as_row s gen.value) _ _ (statement-eq-ok p _ _ gen.rest) in
    (gen.value, rw gen.whole added)
