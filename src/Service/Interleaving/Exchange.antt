-- ===== src/Service/Interleaving/Exchange.antt =====
-- Refresh tokens (internal/service/refresh.go) while calls of the service interleave.
use shelf_auth.Prelude.{
  refl, none, some, inl, inr, String_eq, Option, List, String, ◌≡◌, All, subst, eq_of_some, arith,
  ◌∙◌, ap, Bool-cases, ◌==◌, text_eq_iff, is_some, map-All, ◌||◌, true, sym, All-split, ◌++◌,
}
use shelf_auth.Exec.{Db, World, lift, now, pure}
use shelf_auth.Service.Interleaving.{
  refreshing, issuing, registering, logging_out, viewing, Task, read_session, begin, with_task,
  login_read, refresh_read, System, Reach, later, comes_in, goes_on, here,
}
use shelf_auth.Platform.{Platform, Time}
use shelf_auth.Service.Config.{AuthService}
use shelf_auth.Repo.History.{Follows, Ages-trans, Ages-refl}
use shelf_auth.Service.Interleaving.Safety.{
  IsCurrent, IsBlocked, begin-Follows, Reach-Follows, finish-Follows,
}
use shelf_auth.Repo.Sessions.{by_hash}
use shelf_auth.Errors.{Result, ok, err, ok-injective}
use shelf_auth.Service.Calls.{Call, register_call, login_call, refresh_call, logout_call, me_call}
use shelf_auth.Repo.Searches.{by_hash-Evolves, hash_of_by_hash, IsSpent, IsSpent-Follows}
use shelf_auth.Domain.{Session, User}
use shelf_auth.Security.Token.{hash_sha256_hex}
use shelf_auth.Exec.Inversion.{bind-eq-ok}
use shelf_auth.Service.Login.{authenticate}
use shelf_auth.Service.Refresh.Rotation.{find_session-eq-ok}
use shelf_auth.Tokens.{SignerLaws}

pub All-with_task :
    (P : Task → Type 0) (o : Option Task) (ts : List Task)
    → ((t : Task) → o ≡ some t → P t)
    → All P ts
    → All P (with_task o ts)
All-with_task P none ts new old = old
All-with_task P (some t) ts new old = (new t refl, old)

IsCurrent-Follows :
    {p : Platform} {a b : Db} (t : Task) → Follows p a b → IsCurrent a t → IsCurrent b t
IsCurrent-Follows {a = a} {b = b} (refreshing sess at device_id ip user_agent) f
      (row, found, aged) =
    let (row', found', aged') =
      by_hash-Evolves sess.refresh_hash a.sessions b.sessions f.evolves found in
    (row', found', Ages-trans aged aged')
IsCurrent-Follows (issuing u device_id ip user_agent) f v = tt
IsCurrent-Follows (registering email password verify) f v = tt
IsCurrent-Follows (logging_out raw) f v = tt
IsCurrent-Follows (viewing id) f v = tt

-- What the first half of a refresh read is in the table.
abbrev IsRead : World → Task → Type 0
IsRead w (refreshing sess at device_id ip user_agent) =
    by_hash sess.refresh_hash w.db.sessions ≡ some sess
IsRead w _ = Unit

module _ (p : Platform) (s : AuthService) where
  read_session-eq-ok :
      (raw : String) (w : World) {x : Session × Time}
      → (read_session p s raw w).0 ≡ ok x
      → (by_hash (hash_sha256_hex p raw) w.db.sessions ≡ some x.0)
        × ((read_session p s raw w).1.db ≡ w.db)
  unfolding read_session lift now pure
  read_session-eq-ok raw w {x} h =
      let given = bind-eq-ok _ _ w h in
      let find = bind-eq-ok _ _ _ given.rest in
      let time = bind-eq-ok _ _ _ find.rest in
      let (found, same) = find_session-eq-ok p (hash_sha256_hex p raw) w find.first in
      (
        found ∙ ap (λ y. some y.0) (ok-injective time.rest),
        rw (given.whole, find.whole, time.whole) same,
      )

  IsRead-of_task :
      (raw device_id ip user_agent : String) (w : World) (r : Result (Session × Time)) (t : Task)
      → (read_session p s raw w).0 ≡ r
      → refresh_read p s device_id ip user_agent r ≡ some t
      → IsRead (read_session p s raw w).1 t
  IsRead-of_task raw device_id ip user_agent w (err e) t h k = absurd (ground arith)
  IsRead-of_task raw device_id ip user_agent w (ok (sess, at)) t h k =
      let (found, same) = read_session-eq-ok raw w h in
      subst (IsRead (read_session p s raw w).1) (eq_of_some k) (
        subst (λ h. by_hash h (read_session p s raw w).1.db.sessions ≡ some sess)
          (sym (hash_of_by_hash (hash_sha256_hex p raw) w.db.sessions found)) (rw same found))

  login_task :
      (device_id ip user_agent : String) (w : World) (r : Result User) (t : Task)
      → login_read p s device_id ip user_agent r ≡ some t
      → IsRead w t
  login_task device_id ip user_agent w (err e) t k = absurd (ground arith)
  login_task device_id ip user_agent w (ok u) t k = subst (IsRead w) (eq_of_some k) tt

  begin_task :
      (c : Call) (w : World) (t : Task) → (begin p s c w).0 ≡ some t → IsRead (begin p s c w).1 t
  unfolding begin
  begin_task (register_call email password verify) w t k = subst (IsRead w) (eq_of_some k) tt
  begin_task (login_call email password device_id ip user_agent) w t k =
      login_task device_id ip user_agent (authenticate p s email password w).1
        (authenticate p s email password w).0 t k
  begin_task (refresh_call raw device_id ip user_agent) w t k =
      IsRead-of_task raw device_id ip user_agent w (read_session p s raw w).0 t refl k
  begin_task (logout_call raw) w t k = subst (IsRead w) (eq_of_some k) tt
  begin_task (me_call id) w t k = subst (IsRead w) (eq_of_some k) tt

IsCurrent-of_read : (w : World) (t : Task) → IsRead w t → IsCurrent w.db t
IsCurrent-of_read w (refreshing sess at device_id ip user_agent) found =
    (sess, found, Ages-refl sess)
IsCurrent-of_read w (issuing u device_id ip user_agent) v = tt
IsCurrent-of_read w (registering email password verify) v = tt
IsCurrent-of_read w (logging_out raw) v = tt
IsCurrent-of_read w (viewing id) v = tt

IsBlocked-of_read :
    (hash : String) (w : World) (t : Task) → IsSpent hash w.db → IsRead w t → IsBlocked hash t
IsBlocked-of_read hash w (refreshing sess at device_id ip user_agent) v found =
    elim (Bool-cases (sess.refresh_hash == hash)) [
      | inr other ↦ ground arith
      | inl same_hash ↦
          let found' =
            subst (λ h. by_hash h w.db.sessions ≡ some sess)
              ((text_eq_iff sess.refresh_hash hash).0 same_hash) found in
          let over =
            subst (λ x. (is_some x.revoked_at || is_some x.replaced_by) ≡ true)
              (eq_of_some (sym v.found ∙ found')) v.over in
          ground arith
    ]
IsBlocked-of_read hash w (issuing u device_id ip user_agent) v r = tt
IsBlocked-of_read hash w (registering email password verify) v r = tt
IsBlocked-of_read hash w (logging_out raw) v r = tt
IsBlocked-of_read hash w (viewing id) v r = tt

module _ (p : Platform) (s : AuthService) (laws : SignerLaws s.signer) where
  pub Reach-Current :
      {y z : System}
      → Reach p s y z
      → All (IsCurrent y.world.db) y.tasks
      → All (IsCurrent z.world.db) z.tasks
  Reach-Current here all = all
  Reach-Current {y} (later {z} r (comes_in c)) all =
      All-with_task _ (begin p s c z.world).0 z.tasks
        (λ t k. IsCurrent-of_read (begin p s c z.world).1 t (begin_task p s c z.world t k))
        (map-All (λ t. IsCurrent-Follows t (begin-Follows p s laws c z.world)) z.tasks
          (Reach-Current r all))
  Reach-Current {y} (later {z} r (goes_on before t after e)) all =
      map-All (λ u. IsCurrent-Follows u (finish-Follows p s laws t z.world)) (before ++ after)
        (All-split _ before t after (subst (All (IsCurrent z.world.db)) e (Reach-Current r all))).1

  pub Reach-Blocked :
      {y z : System} (hash : String)
      → Reach p s y z
      → IsSpent hash y.world.db
      → All (IsBlocked hash) y.tasks
      → All (IsBlocked hash) z.tasks
  Reach-Blocked hash here v all = all
  Reach-Blocked {y} hash (later {z} r (comes_in c)) v all =
      let spent =
        IsSpent-Follows hash (begin-Follows p s laws c z.world)
          (IsSpent-Follows hash (Reach-Follows p s laws r) v) in
      All-with_task _ (begin p s c z.world).0 z.tasks
        (λ t k.
          IsBlocked-of_read hash (begin p s c z.world).1 t spent (begin_task p s c z.world t k))
        (Reach-Blocked hash r v all)
  Reach-Blocked {y} hash (later {z} r (goes_on before t after e)) v all =
      (All-split _ before t after (subst (All (IsBlocked hash)) e (Reach-Blocked hash r v all))).1
