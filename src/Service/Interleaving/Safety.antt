-- ===== src/Service/Interleaving/Safety.antt =====
-- What holds however calls of the service (internal/service) interleave.
use shelf_auth.Prelude.{some, String_eq, String, not, ◌==◌, ◌≡◌, ◌||◌, is_some, true, List, ◌++◌}
use shelf_auth.Exec.{Db, World, UserRow}
use shelf_auth.Service.Interleaving.{
  refreshing, issuing, registering, logging_out, viewing, Task, read_session, begin, finish, System,
  Step, Reach, comes_in, later, goes_on, here,
}
use shelf_auth.Platform.{Platform}
use shelf_auth.Service.Config.{AuthService}
use shelf_auth.Domain.{Session}
use shelf_auth.Tokens.{SignerLaws}
use shelf_auth.Repo.Sessions.{by_hash}
use shelf_auth.Exec.Preserves.{
  Preorder, Preserves, bind-Preserves, lift-Preserves, relabel-Preserves, now-Preserves,
  pure-Preserves,
}
use shelf_auth.Repo.History.{Follows, Ages, Follows-Preorder, Evolves}
use shelf_auth.Service.Calls.{Call, register_call, login_call, refresh_call, logout_call, me_call}
use shelf_auth.Service.History.{
  refresh_found-Preserves, issue-Preserves, authenticate-Preserves, register-Preserves,
  logout-Preserves, me-Preserves,
}
use shelf_auth.Service.Refresh.{hide_missing}
use shelf_auth.Repo.Preservation.{find_by_hash-Preserves}
use shelf_auth.Security.Token.{hash_sha256_hex}

-- A refresh that is under way has read a session that is still there, perhaps aged.
abbrev pub IsCurrent : Db → Task → Type 0
IsCurrent db (refreshing sess at device_id ip user_agent) =
    (row : Session) × (by_hash sess.refresh_hash db.sessions ≡ some row) × Ages sess row
IsCurrent db _ = Unit

-- A task is no refresh with the token of the hash, or one that has read that it is spent.
abbrev pub IsBlocked : String → Task → Type 0
IsBlocked hash (refreshing sess at device_id ip user_agent) =
    (not (sess.refresh_hash == hash) || (is_some sess.revoked_at || is_some sess.replaced_by))
    ≡ true
IsBlocked hash _ = Unit

module _ (p : Platform) (s : AuthService) (laws : SignerLaws s.signer) where
  order : Preorder (Follows p)
  order = Follows-Preorder p

  read_session-Preserves : (raw : String) → Preserves (Follows p) (read_session p s raw)
  unfolding read_session
  read_session-Preserves raw = bind-Preserves order _ _ (lift-Preserves order _) λ _.
      bind-Preserves order _ _
        (relabel-Preserves order hide_missing _ (find_by_hash-Preserves p (hash_sha256_hex p raw)))
        λ sess. bind-Preserves order _ _ (now-Preserves order p) λ at. pure-Preserves order _

  pub begin-Follows : (c : Call) (w : World) → Follows p w.db (begin p s c w).1.db
  unfolding begin
  begin-Follows (register_call email password verify) w = order.reflexive w.db
  begin-Follows (login_call email password device_id ip user_agent) w =
      (authenticate-Preserves p s laws email password).at w
  begin-Follows (refresh_call raw device_id ip user_agent) w = (read_session-Preserves raw).at w
  begin-Follows (logout_call raw) w = order.reflexive w.db
  begin-Follows (me_call id) w = order.reflexive w.db

  pub finish-Follows : (t : Task) (w : World) → Follows p w.db (finish p s t w).db
  unfolding finish
  finish-Follows (refreshing sess at device_id ip user_agent) w =
      (refresh_found-Preserves p s laws sess at device_id ip user_agent).at w
  finish-Follows (issuing u device_id ip user_agent) w =
      (issue-Preserves p s laws u device_id ip user_agent).at w
  finish-Follows (registering email password verify) w =
      (register-Preserves p s laws email password verify).at w
  finish-Follows (logging_out raw) w = (logout-Preserves p s laws raw).at w
  finish-Follows (viewing id) w = (me-Preserves p s laws id).at w

  Step-Follows : {y z : System} → Step p s y z → Follows p y.world.db z.world.db
  Step-Follows {y} (comes_in c) = begin-Follows c y.world
  Step-Follows {y} (goes_on before t after e) = finish-Follows t y.world

  pub Reach-Follows : {y z : System} → Reach p s y z → Follows p y.world.db z.world.db
  Reach-Follows {y} here = order.reflexive y.world.db
  Reach-Follows (later r st) = order.transitive (Reach-Follows r) (Step-Follows st)

  -- However calls interleave: the accounts that were there are, unchanged and in their order, the first that
  -- are there afterwards, and so are the sessions, but for replaced_by and revoked_at; a
  -- replaced_by that is set stays set, and a revoked_at that is set keeps its value. The signer is
  -- one that leaves the database alone.
  pub Reach-Evolves :
      {y z : System}
      → Reach p s y z
      → ((more : List UserRow) × (z.world.db.users ≡ y.world.db.users ++ more))
        × Evolves y.world.db.sessions z.world.db.sessions
  Reach-Evolves r = let f = Reach-Follows r in (f.users_grow, f.evolves)
