-- ===== src/Service/Interleaving/Sound.antt =====
-- Sound tables while calls of the service (internal/service) interleave.
use shelf_auth.Prelude.{
  some, [], String_eq, ℕ_eq, refl, String, ◌≡◌, true, All, any-append_left, subst, eq_of_some, sym,
  arith, map-All, All-split, ◌++◌,
}
use shelf_auth.Exec.{Db, World}
use shelf_auth.Platform.{Platform, EntityId, Time}
use shelf_auth.Service.Interleaving.{
  Task, issuing, begin, read_session, refreshing, System, registering, Reach, finish, logging_out,
  viewing, login_read, later, refresh_read, comes_in, goes_on, here,
}
use shelf_auth.Service.Config.{AuthService}
use shelf_auth.Repo.History.{Follows}
use shelf_auth.Tokens.{SignerLaws}
use shelf_auth.Service.Calls.Soundness.{
  is_verified, IsSound, KeepsSound, is_verified-of_found, is_verified-of_hash, KeepsSound-of_same,
}
use shelf_auth.Service.Calls.{Call, register_call, login_call, refresh_call, logout_call, me_call}
use shelf_auth.Exec.Atomic.{Reads, Same-Preorder}
use shelf_auth.Security.Password.Hashing.{BcryptLaws}
use shelf_auth.Domain.{User, Session}
use shelf_auth.Errors.{Result, ok, err}
use shelf_auth.Exec.Preserves.{
  bind-Preserves, lift-Preserves, relabel-Preserves, now-Preserves, pure-Preserves,
}
use shelf_auth.Service.Login.{authenticate}
use shelf_auth.Service.Interleaving.Safety.{IsCurrent, begin-Follows, finish-Follows}
use shelf_auth.Service.Login.Success.{authenticate-eq-ok}
use shelf_auth.Service.Atomic.{authenticate-Reads, find_by_hash-Reads, me-Reads}
use shelf_auth.Service.Calls.Sound.{
  refresh_found-KeepsSound, issue-KeepsSound, register-KeepsSound, logout-KeepsSound,
}
use shelf_auth.Service.Refresh.{hide_missing}
use shelf_auth.Service.Interleaving.Exchange.{All-with_task, Reach-Current}
use shelf_auth.Security.Token.{hash_sha256_hex}

-- A login that is under way has authenticated an account with a verified address.
abbrev IsEntitled : Db → Task → Type 0
IsEntitled db (issuing u device_id ip user_agent) = is_verified db.users u.id ≡ true
IsEntitled db _ = Unit

is_verified-Follows :
    {p : Platform} {a b : Db} (id : EntityId)
    → Follows p a b
    → is_verified a.users id ≡ true
    → is_verified b.users id ≡ true
is_verified-Follows {a = a} id f h =
    let (more, grown) = f.users_grow in rw grown (any-append_left _ a.users more h)

IsEntitled-Follows :
    {p : Platform} {a b : Db} (t : Task) → Follows p a b → IsEntitled a t → IsEntitled b t
IsEntitled-Follows (issuing u device_id ip user_agent) f v = is_verified-Follows u.id f v
IsEntitled-Follows (refreshing sess at device_id ip user_agent) f v = tt
IsEntitled-Follows (registering email password verify) f v = tt
IsEntitled-Follows (logging_out raw) f v = tt
IsEntitled-Follows (viewing id) f v = tt

module _ (p : Platform) (s : AuthService) where
  authenticated :
      (email password : String) (w : World) (u : User)
      → (authenticate p s email password w).0 ≡ ok u
      → is_verified (authenticate p s email password w).1.db.users u.id ≡ true
  authenticated email password w u h =
      let (row, account, same_id, same) = authenticate-eq-ok p s email password w h in
      rw (same, same_id) (is_verified-of_found _ w.db.users row account.listed account.verified)

  login_read-IsEntitled :
      (email password device_id ip user_agent : String) (w : World) (r : Result User) (t : Task)
      → (authenticate p s email password w).0 ≡ r
      → login_read p s device_id ip user_agent r ≡ some t
      → IsEntitled (authenticate p s email password w).1.db t
  login_read-IsEntitled email password device_id ip user_agent w (err e) t h k =
      absurd (ground arith)
  login_read-IsEntitled email password device_id ip user_agent w (ok u) t h k =
      subst (IsEntitled (authenticate p s email password w).1.db) (eq_of_some k)
        (authenticated email password w u h)

  refresh_read-IsEntitled :
      (device_id ip user_agent : String) (w : World) (r : Result (Session × Time)) (t : Task)
      → refresh_read p s device_id ip user_agent r ≡ some t
      → IsEntitled w.db t
  refresh_read-IsEntitled device_id ip user_agent w (err e) t k = absurd (ground arith)
  refresh_read-IsEntitled device_id ip user_agent w (ok (sess, at)) t k =
      subst (IsEntitled w.db) (eq_of_some k) tt

  begin-IsEntitled :
      (c : Call) (w : World) (t : Task)
      → (begin p s c w).0 ≡ some t
      → IsEntitled (begin p s c w).1.db t
  unfolding begin
  begin-IsEntitled (register_call email password verify) w t k =
      subst (IsEntitled w.db) (eq_of_some k) tt
  begin-IsEntitled (login_call email password device_id ip user_agent) w t k =
      login_read-IsEntitled email password device_id ip user_agent w
        (authenticate p s email password w).0 t refl k
  begin-IsEntitled (refresh_call raw device_id ip user_agent) w t k =
      refresh_read-IsEntitled device_id ip user_agent (read_session p s raw w).1
        (read_session p s raw w).0 t k
  begin-IsEntitled (logout_call raw) w t k = subst (IsEntitled w.db) (eq_of_some k) tt
  begin-IsEntitled (me_call id) w t k = subst (IsEntitled w.db) (eq_of_some k) tt

  read_session-Reads : (raw : String) → Reads (read_session p s raw)
  unfolding read_session
  read_session-Reads raw = bind-Preserves Same-Preorder _ _ (lift-Preserves Same-Preorder _) λ _.
      bind-Preserves Same-Preorder _ _
        (relabel-Preserves Same-Preorder hide_missing _
          (find_by_hash-Reads p (hash_sha256_hex p raw)))
        λ sess.
          bind-Preserves Same-Preorder _ _ (now-Preserves Same-Preorder p)
            λ at. pure-Preserves Same-Preorder _

  module _ (laws : SignerLaws s.signer) where
    begin-db : (c : Call) (w : World) → (begin p s c w).1.db ≡ w.db
    unfolding begin
    begin-db (register_call email password verify) w = refl
    begin-db (login_call email password device_id ip user_agent) w =
        (authenticate-Reads p s laws email password).at w
    begin-db (refresh_call raw device_id ip user_agent) w = (read_session-Reads raw).at w
    begin-db (logout_call raw) w = refl
    begin-db (me_call id) w = refl

    Reach-IsEntitled :
        {y z : System}
        → Reach p s y z
        → All (IsEntitled y.world.db) y.tasks
        → All (IsEntitled z.world.db) z.tasks
    Reach-IsEntitled here all = all
    Reach-IsEntitled {y} (later {z} r (comes_in c)) all =
        All-with_task _ (begin p s c z.world).0 z.tasks (λ t k. begin-IsEntitled c z.world t k)
          (map-All (λ t. IsEntitled-Follows t (begin-Follows p s laws c z.world)) z.tasks
            (Reach-IsEntitled r all))
    Reach-IsEntitled {y} (later {z} r (goes_on before t after e)) all =
        map-All (λ u. IsEntitled-Follows u (finish-Follows p s laws t z.world)) (before ++ after)
          (All-split _ before t after
            (subst (All (IsEntitled z.world.db)) e (Reach-IsEntitled r all))).1

    module _ (bcrypt : BcryptLaws p) where
      finish-KeepsSound :
          (t : Task) (w : World)
          → IsCurrent w.db t
          → IsEntitled w.db t
          → KeepsSound p s.refresh_ttl w.db (finish p s t w).db
      unfolding finish
      finish-KeepsSound (refreshing sess at device_id ip user_agent) w (row, found, aged) e =
          refresh_found-KeepsSound p s laws "" device_id ip user_agent sess at w (λ v.
            rw (sym aged.same_user)
              (is_verified-of_hash p s.refresh_ttl w.db sess.refresh_hash row v found))
      finish-KeepsSound (issuing u device_id ip user_agent) w c e =
          issue-KeepsSound p s laws u device_id ip user_agent w e
      finish-KeepsSound (registering email password verify) w c e =
          register-KeepsSound p s laws bcrypt email password verify w
      finish-KeepsSound (logging_out raw) w c e = logout-KeepsSound p s laws raw w
      finish-KeepsSound (viewing id) w c e =
          KeepsSound-of_same p s.refresh_ttl w.db _ ((me-Reads p id).at w)

      Reach-KeepsSound :
          {y z : System}
          → Reach p s y z
          → All (IsCurrent y.world.db) y.tasks
          → All (IsEntitled y.world.db) y.tasks
          → KeepsSound p s.refresh_ttl y.world.db z.world.db
      Reach-KeepsSound here c e v = v
      Reach-KeepsSound {y} (later {z} r (comes_in call)) c e v =
          rw (begin-db call z.world) (Reach-KeepsSound r c e v)
      Reach-KeepsSound {y} (later {z} r (goes_on before t after q)) c e v =
          let current =
            All-split _ before t after
              (subst (All (IsCurrent z.world.db)) q (Reach-Current p s laws r c)) in
          let entitled =
            All-split _ before t after
              (subst (All (IsEntitled z.world.db)) q (Reach-IsEntitled r e)) in
          finish-KeepsSound t z.world current.0 entitled.0 (Reach-KeepsSound r c e v)

-- However calls interleave, from a system in which nothing is under way: if each account's address had the form of one
-- and no white space around it, and each session was that of an account with a verified address and
-- ended the refresh TTL after its start, then it is still so. A bcrypt hash matches what it was
-- made from, and is not blank, and the signer is one that leaves the database alone.
pub Reach-IsSound :
    (p : Platform) (s : AuthService) (laws : SignerLaws s.signer) (bcrypt : BcryptLaws p)
    (y z : System)
    → y.tasks ≡ []
    → Reach p s y z
    → IsSound p s.refresh_ttl y.world.db
    → IsSound p s.refresh_ttl z.world.db
Reach-IsSound p s laws bcrypt y z idle r =
    Reach-KeepsSound p s laws bcrypt r (subst (All (IsCurrent y.world.db)) (sym idle) tt)
      (subst (All (IsEntitled y.world.db)) (sym idle) tt)
