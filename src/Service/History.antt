-- ===== src/Service/History.antt =====
-- The operations of the service (internal/service) and the relation `Follows`.
use shelf_auth.Platform.{Platform, Duration, Time, EntityId}
use shelf_auth.Service.Config.{AuthService}
use shelf_auth.Tokens.{SignerLaws, AccessClaims}
use shelf_auth.Exec.Preserves.{
  Preorder, Preserves, bind-Preserves, lift-Preserves, random-Preserves, relabel-Preserves,
  now-Preserves, fresh-Preserves, pure-Preserves, raise-Preserves, if-Preserves,
}
use shelf_auth.Service.Register.{register}
use shelf_auth.Service.Login.{authenticate, issue, login, hide_unknown}
use shelf_auth.Service.Refresh.{reject_reuse, rotate_session, refresh, refresh_found, hide_missing}
use shelf_auth.Domain.{Session, User, non_empty}
use shelf_auth.Service.Logout.{logout}
use shelf_auth.Service.Me.{me}
use shelf_auth.Repo.History.{Follows, Follows-Preorder}
use shelf_auth.Prelude.{String, Bool, is_some, ltb}
use shelf_auth.Repo.Preservation.{
  find_by_id-Preserves, insert-Preserves, create-Preserves, revoke_all-Preserves, rotate-Preserves,
  find_by_hash-Preserves, find_by_email-Preserves, revoke_by_hash-Preserves,
}
use shelf_auth.Errors.{ok, sentinel, revoked_refresh, expired_refresh}
use shelf_auth.Security.Token.{hash_sha256_hex}

module _ (p : Platform) (s : AuthService) (laws : SignerLaws s.signer) where
  order : Preorder (Follows p)
  order = Follows-Preorder p

  sign-Preserves :
      (c : AccessClaims) (ttl : Duration) → Preserves (Follows p) (s.signer.sign_access c ttl)
  sign-Preserves c ttl = record { at = λ w. rw (laws.keeps_db c ttl w) (order.reflexive w.db) }

  pub register-Preserves :
      (email password : String) (verify : Bool)
      → Preserves (Follows p) (register p s email password verify)
  unfolding register
  register-Preserves email password verify = bind-Preserves order _ _ (lift-Preserves order _) λ e.
      bind-Preserves order _ _ (lift-Preserves order _) λ _.
        bind-Preserves order _ _ (random-Preserves order _) λ hash.
          bind-Preserves order _ _ (now-Preserves order p) λ at.
            bind-Preserves order _ _ (lift-Preserves order _) λ u.
              bind-Preserves order _ _ (insert-Preserves p (record u { email_verified = verify }))
                λ id. pure-Preserves order _

  pub authenticate-Preserves :
      (email password : String) → Preserves (Follows p) (authenticate p s email password)
  unfolding authenticate
  authenticate-Preserves email password = bind-Preserves order _ _ (lift-Preserves order _) λ e.
      bind-Preserves order _ _
        (relabel-Preserves order hide_unknown _ (find_by_email-Preserves p e))
        λ u.
          bind-Preserves order _ _ (lift-Preserves order _)
            λ _. bind-Preserves order _ _ (lift-Preserves order _) λ _. pure-Preserves order _

  pub issue-Preserves :
      (u : User) (device_id ip user_agent : String)
      → Preserves (Follows p) (issue p s u device_id ip user_agent)
  unfolding issue
  issue-Preserves u device_id ip user_agent =
      bind-Preserves order _ _ (sign-Preserves _ _) λ access.
        bind-Preserves order _ _ (random-Preserves order _) λ raw.
          bind-Preserves order _ _ (random-Preserves order _) λ jti.
            bind-Preserves order _ _ (now-Preserves order p) λ at.
              bind-Preserves order _ _ (lift-Preserves order _) λ sess.
                bind-Preserves order _ _ (create-Preserves p sess) λ _. pure-Preserves order _

  pub login-Preserves :
      (email password device_id ip user_agent : String)
      → Preserves (Follows p) (login p s email password device_id ip user_agent)
  unfolding login
  login-Preserves email password device_id ip user_agent =
      bind-Preserves order _ _ (authenticate-Preserves email password)
        λ u. issue-Preserves u device_id ip user_agent

  reject_reuse-Preserves :
      (sess : Session) (at : Time) → Preserves (Follows p) (reject_reuse p sess at)
  unfolding reject_reuse
  reject_reuse-Preserves sess at =
      bind-Preserves order _ _
        (relabel-Preserves order (λ _. ok tt) _
          (revoke_all-Preserves p sess.user_id sess.device_id at))
        λ _. raise-Preserves order _

  rotate_session-Preserves :
      (sess : Session) (at : Time) (device_id ip user_agent : String)
      → Preserves (Follows p) (rotate_session p s sess at device_id ip user_agent)
  unfolding rotate_session
  rotate_session-Preserves sess at device_id ip user_agent =
      bind-Preserves order _ _ (sign-Preserves _ _) λ access.
        bind-Preserves order _ _ (random-Preserves order _) λ raw.
          bind-Preserves order _ _ (lift-Preserves order _) λ parsed.
            bind-Preserves order _ _ (fresh-Preserves order p) λ jti.
              bind-Preserves order _ _ (rotate-Preserves p sess.jti _) λ _. pure-Preserves order _

  pub refresh_found-Preserves :
      (sess : Session) (at : Time) (device_id ip user_agent : String)
      → Preserves (Follows p) (refresh_found p s sess at device_id ip user_agent)
  unfolding refresh_found
  refresh_found-Preserves sess at device_id ip user_agent =
      if-Preserves order (is_some sess.revoked_at) _ _
        (raise-Preserves order (sentinel revoked_refresh))
        (if-Preserves order (ltb sess.expires_at at) _ _
          (raise-Preserves order (sentinel expired_refresh))
          (if-Preserves order (is_some sess.replaced_by) _ _ (reject_reuse-Preserves sess at)
            (rotate_session-Preserves sess at device_id ip user_agent)))

  pub refresh-Preserves :
      (raw device_id ip user_agent : String)
      → Preserves (Follows p) (refresh p s raw device_id ip user_agent)
  unfolding refresh
  refresh-Preserves raw device_id ip user_agent =
      bind-Preserves order _ _ (lift-Preserves order _) λ _.
        bind-Preserves order _ _
          (relabel-Preserves order hide_missing _
            (find_by_hash-Preserves p (hash_sha256_hex p raw)))
          λ sess.
            bind-Preserves order _ _ (now-Preserves order p)
              λ at. refresh_found-Preserves sess at device_id ip user_agent

  pub logout-Preserves : (raw : String) → Preserves (Follows p) (logout p raw)
  unfolding logout
  logout-Preserves raw =
      if-Preserves order (non_empty raw) _ _
        (bind-Preserves order _ _ (now-Preserves order p) λ at.
          bind-Preserves order _ _
            (relabel-Preserves order _ _ (revoke_by_hash-Preserves p (hash_sha256_hex p raw) at))
            λ _. pure-Preserves order tt)
        (pure-Preserves order tt)

  pub me-Preserves : (id : EntityId) → Preserves (Follows p) (me p id)
  unfolding me
  me-Preserves id = bind-Preserves order _ _ (find_by_id-Preserves p id) λ u. pure-Preserves order _
