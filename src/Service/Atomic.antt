-- ===== src/Service/Atomic.antt =====
-- Calls of the service that fail, and the tables after them (internal/service).
use shelf_auth.Errors.{
  Error, errors_is, reused_refresh, err, sentinel, revoked_refresh, expired_refresh,
}
use shelf_auth.Platform.{Platform, Duration, Time, EntityId}
use shelf_auth.Exec.Preserves.{
  Preorder, bind-Preserves, relabel-Preserves, statement-Preserves, lift-Preserves, pure-Preserves,
  fresh-Preserves, random-Preserves, now-Preserves, raise-Preserves,
}
use shelf_auth.Repo.Users.{find_by_email, insert, insert_row, find_by_id}
use shelf_auth.Repo.Sessions.{find_by_hash, create, rotate, missing_as_not_found}
use shelf_auth.Service.Config.{AuthService}
use shelf_auth.Exec.Atomic.{
  Same, Same-Preorder, Reads, IsAtomic, bind-IsAtomic, transaction-IsAtomic, statement-IsAtomic,
  last-IsAtomic, pure-ok, if-IsAtomic, Reads-IsAtomic,
}
use shelf_auth.Domain.{Email, Session, User}
use shelf_auth.Prelude.{String, Bool, ◌≡◌, false, arith, is_some, ltb}
use shelf_auth.Exec.{relabel, fresh, World, statement, ◌>>=◌}
use shelf_auth.Tokens.{SignerLaws, AccessClaims}
use shelf_auth.Service.Register.{register}
use shelf_auth.Service.Login.{authenticate, login, hide_unknown, issue}
use shelf_auth.Service.Refresh.{rotate_session, reject_reuse, refresh, refresh_found, hide_missing}
use shelf_auth.Security.Token.{hash_sha256_hex}
use shelf_auth.Service.Me.{me}

abbrev pub AnyError : Error → Type 0
AnyError e = Unit

module _ (p : Platform) where
  order : Preorder Same
  order = Same-Preorder

  find_by_email-Reads : (email : Email) → Reads (find_by_email p email)
  unfolding find_by_email
  find_by_email-Reads email =
      bind-Preserves order _ _ (statement-Preserves order p _ λ r d d' e. ground arith)
        λ r. bind-Preserves order _ _ (lift-Preserves order _) λ e. pure-Preserves order _

  pub find_by_hash-Reads : (hash : String) → Reads (find_by_hash p hash)
  unfolding find_by_hash
  find_by_hash-Reads hash =
      relabel-Preserves order missing_as_not_found _
        (statement-Preserves order p _ λ s d d' e. ground arith)

  pub me-Reads : (id : EntityId) → Reads (me p id)
  unfolding me find_by_id
  me-Reads id =
      bind-Preserves order _ _
        (bind-Preserves order _ _ (statement-Preserves order p _ λ r d d' e. ground arith)
          λ r. bind-Preserves order _ _ (lift-Preserves order _) λ e. pure-Preserves order _)
        λ u. pure-Preserves order _

  module _ {P : Error → Type 0} where
    insert-IsAtomic : (u : User) → IsAtomic P (insert p u)
    unfolding insert relabel fresh statement ◌>>=◌ insert_row
    insert-IsAtomic u = record { at = λ w e c h. ground arith }

    create-IsAtomic : (s : Session) → IsAtomic P (create p s)
    unfolding create
    create-IsAtomic s = bind-IsAtomic _ _ (fresh-Preserves order p) λ id. statement-IsAtomic p _

    rotate-IsAtomic : (old : String) (s : Session) → IsAtomic P (rotate p old s)
    unfolding rotate
    rotate-IsAtomic old s = transaction-IsAtomic _

  module _ (s : AuthService) (laws : SignerLaws s.signer) where
    sign-Reads : (c : AccessClaims) (ttl : Duration) → Reads (s.signer.sign_access c ttl)
    sign-Reads c ttl = record { at = λ w. laws.keeps_db c ttl w }

    register-IsAtomic :
        (email password : String) (verify : Bool)
        → IsAtomic AnyError (register p s email password verify)
    unfolding register
    register-IsAtomic email password verify = bind-IsAtomic _ _ (lift-Preserves order _) λ e.
        bind-IsAtomic _ _ (lift-Preserves order _) λ _.
          bind-IsAtomic _ _ (random-Preserves order _) λ hash.
            bind-IsAtomic _ _ (now-Preserves order p) λ at.
              bind-IsAtomic _ _ (lift-Preserves order _)
                λ u. last-IsAtomic _ _ (insert-IsAtomic _) λ id w. pure-ok _ w

    pub authenticate-Reads : (email password : String) → Reads (authenticate p s email password)
    unfolding authenticate
    authenticate-Reads email password = bind-Preserves order _ _ (lift-Preserves order _) λ e.
        bind-Preserves order _ _ (relabel-Preserves order hide_unknown _ (find_by_email-Reads e))
          λ u.
            bind-Preserves order _ _ (lift-Preserves order _)
              λ _. bind-Preserves order _ _ (lift-Preserves order _) λ _. pure-Preserves order _

    pub issue-IsAtomic :
        (u : User) (device_id ip user_agent : String)
        → IsAtomic AnyError (issue p s u device_id ip user_agent)
    unfolding issue
    issue-IsAtomic u device_id ip user_agent = bind-IsAtomic _ _ (sign-Reads _ _) λ access.
        bind-IsAtomic _ _ (random-Preserves order _) λ raw.
          bind-IsAtomic _ _ (random-Preserves order _) λ jti.
            bind-IsAtomic _ _ (now-Preserves order p) λ at.
              bind-IsAtomic _ _ (lift-Preserves order _)
                λ sess. last-IsAtomic _ _ (create-IsAtomic sess) λ _ w. pure-ok _ w

    login-IsAtomic :
        (email password device_id ip user_agent : String)
        → IsAtomic AnyError (login p s email password device_id ip user_agent)
    unfolding login
    login-IsAtomic email password device_id ip user_agent =
        bind-IsAtomic _ _ (authenticate-Reads email password)
          λ u. issue-IsAtomic u device_id ip user_agent

    pub rotate_session-IsAtomic :
        {P : Error → Type 0} (sess : Session) (at : Time) (device_id ip user_agent : String)
        → IsAtomic P (rotate_session p s sess at device_id ip user_agent)
    unfolding rotate_session
    rotate_session-IsAtomic sess at device_id ip user_agent =
        bind-IsAtomic _ _ (sign-Reads _ _) λ access.
          bind-IsAtomic _ _ (random-Preserves order _) λ raw.
            bind-IsAtomic _ _ (lift-Preserves order _) λ parsed.
              bind-IsAtomic _ _ (fresh-Preserves order p)
                λ jti. last-IsAtomic _ _ (rotate-IsAtomic sess.jti _) λ _ w. pure-ok _ w

    abbrev NotReuse : Error → Type 0
    NotReuse e = errors_is e reused_refresh ≡ false

    reject_reuse-IsAtomic :
        (sess : Session) (at : Time) → IsAtomic NotReuse (reject_reuse p sess at)
    unfolding reject_reuse ◌>>=◌
    reject_reuse-IsAtomic sess at = record { at = λ w e c h. absurd (ground arith) }

    refresh-IsAtomic :
        (raw device_id ip user_agent : String)
        → IsAtomic NotReuse (refresh p s raw device_id ip user_agent)
    unfolding refresh refresh_found
    refresh-IsAtomic raw device_id ip user_agent = bind-IsAtomic _ _ (lift-Preserves order _) λ _.
        bind-IsAtomic _ _
          (relabel-Preserves order hide_missing _ (find_by_hash-Reads (hash_sha256_hex p raw)))
          λ sess. bind-IsAtomic _ _ (now-Preserves order p) λ at.
            if-IsAtomic (is_some sess.revoked_at) _ _
              (Reads-IsAtomic _ (raise-Preserves order (sentinel revoked_refresh)))
              (if-IsAtomic (ltb sess.expires_at at) _ _
                (Reads-IsAtomic _ (raise-Preserves order (sentinel expired_refresh)))
                (if-IsAtomic (is_some sess.replaced_by) _ _ (reject_reuse-IsAtomic sess at)
                  (rotate_session-IsAtomic sess at device_id ip user_agent)))

    -- A login that fails leaves both tables as they were. The signer is one that leaves the
    -- database alone.
    pub login-eq-err :
        (email password device_id ip user_agent : String) (w : World) (e : Error)
        → (login p s email password device_id ip user_agent w).0 ≡ err e
        → (login p s email password device_id ip user_agent w).1.db ≡ w.db
    unfolding AnyError
    login-eq-err email password device_id ip user_agent w e h =
        (login-IsAtomic email password device_id ip user_agent).at w e tt h

    -- A registration that fails leaves both tables as they were. The signer is one that leaves
    -- the database alone.
    pub register-eq-err :
        (email password : String) (verify : Bool) (w : World) (e : Error)
        → (register p s email password verify w).0 ≡ err e
        → (register p s email password verify w).1.db ≡ w.db
    unfolding AnyError
    register-eq-err email password verify w e h =
        (register-IsAtomic email password verify).at w e tt h

    -- A refresh that fails leaves both tables as they were, unless its error is ErrReusedRefresh.
    -- The signer is one that leaves the database alone.
    pub refresh-eq-err :
        (raw device_id ip user_agent : String) (w : World) (e : Error)
        → errors_is e reused_refresh ≡ false
        → (refresh p s raw device_id ip user_agent w).0 ≡ err e
        → (refresh p s raw device_id ip user_agent w).1.db ≡ w.db
    refresh-eq-err raw device_id ip user_agent w e c h =
        (refresh-IsAtomic raw device_id ip user_agent).at w e c h
