-- ===== src/Service/Interleaving/Once.antt =====
-- One refresh for one token (internal/service/refresh.go) while calls of the service interleave.
use shelf_auth.Prelude.{
  some, String_eq, String, List, ◌≡◌, [], ◌≢◌, ◌++◌, ◌∷◌, arith, All, ap, text_eq_iff, sym,
  All-split, ◌∙◌, subst,
}
use shelf_auth.Service.Interleaving.{refreshing, finish, System, Task, Reach}
use shelf_auth.Platform.{Platform, Time}
use shelf_auth.Service.Config.{AuthService}
use shelf_auth.Tokens.{SignerLaws}
use shelf_auth.Domain.{Session}
use shelf_auth.Exec.{World}
use shelf_auth.Service.Refresh.{RefreshResult, refresh_found}
use shelf_auth.Repo.Sessions.{by_hash}
use shelf_auth.Repo.History.{Ages}
use shelf_auth.Service.Interleaving.Safety.{IsBlocked, IsCurrent}
use shelf_auth.Errors.{ok}
use shelf_auth.Repo.Searches.{IsSpent}
use shelf_auth.Service.Refresh.Rotation.{refresh_found-eq-ok, rotate_session-eq-ok}
use shelf_auth.Service.Interleaving.Exchange.{Reach-Current, Reach-Blocked}
use shelf_auth.Service.Refresh.Spent.{IsSpent-of_rotation}

module _ (p : Platform) (s : AuthService) (laws : SignerLaws s.signer) where
  exchanged-IsSpent :
      (sess row : Session) (at : Time) (device_id ip user_agent : String) (w : World)
      (r : RefreshResult)
      → by_hash sess.refresh_hash w.db.sessions ≡ some row
      → Ages sess row
      → (refresh_found p s sess at device_id ip user_agent w).0 ≡ ok r
      → IsSpent sess.refresh_hash (finish p s (refreshing sess at device_id ip user_agent) w).db
  unfolding finish
  exchanged-IsSpent sess row at device_id ip user_agent w r found aged h =
      let (usable, same) = refresh_found-eq-ok p s laws device_id ip user_agent sess at w h in
      let m =
        rotate_session-eq-ok p s laws device_id ip user_agent sess at w
          (ap (λ x. x.0) (sym same) ∙ h) in
      subst (λ x. IsSpent sess.refresh_hash x.1.db) (sym same)
        (IsSpent-of_rotation p s laws sess.refresh_hash device_id sess row at r w.db _ found
          aged.same_jti m)

  blocked_fails :
      (sess : Session) (hash : String) (at : Time) (device_id ip user_agent : String) (w : World)
      (r : RefreshResult)
      → sess.refresh_hash ≡ hash
      → IsBlocked hash (refreshing sess at device_id ip user_agent)
      → (refresh_found p s sess at device_id ip user_agent w).0 ≢ ok r
  blocked_fails sess hash at device_id ip user_agent w r same blocked h =
      let (usable, _) = refresh_found-eq-ok p s laws device_id ip user_agent sess at w h in
      ground (arith, usable.unrevoked, usable.unreplaced, text_eq_iff sess.refresh_hash hash)

  -- From a system in which nothing is under way: once a refresh has exchanged a token while every
  -- other refresh with it that was under way had read that it was spent, no refresh with it succeeds
  -- any more, however calls interleave before and after. The signer is one that leaves the database
  -- alone.
  pub refresh_once_interleaved :
      (quiet y z : System) (sess sess' : Session) (at at' : Time)
      (before after before' after' : List Task)
      (device_id ip user_agent device_id' ip' user_agent' : String) (r r' : RefreshResult)
      → quiet.tasks ≡ []
      → Reach p s quiet y
      → y.tasks ≡ before ++ refreshing sess at device_id ip user_agent ∷ after
      → (refresh_found p s sess at device_id ip user_agent y.world).0 ≡ ok r
      → All (IsBlocked sess.refresh_hash) (before ++ after)
      → Reach p s
          (record {
            world = finish p s (refreshing sess at device_id ip user_agent) y.world;
            tasks = before ++ after;
          })
          z
      → z.tasks ≡ before' ++ refreshing sess' at' device_id' ip' user_agent' ∷ after'
      → sess'.refresh_hash ≡ sess.refresh_hash
      → (refresh_found p s sess' at' device_id' ip' user_agent' z.world).0 ≢ ok r'
  refresh_once_interleaved quiet y z sess sess' at at' before after before' after' device_id ip
        user_agent device_id' ip' user_agent' r r' none_yet reach under done others reach' under'
        same =
      let start : All (IsCurrent quiet.world.db) quiet.tasks = rw none_yet tt in
      let (row, found, aged) =
        (All-split _ before _ after
          (subst (All (IsCurrent y.world.db)) under (Reach-Current p s laws reach start))).0 in
      let spent = exchanged-IsSpent sess row at device_id ip user_agent y.world r found aged done in
      let blocked =
        (All-split _ before' _ after' (
          subst (All (IsBlocked sess.refresh_hash)) under'
            (Reach-Blocked p s laws sess.refresh_hash reach' spent others))).0 in
      blocked_fails sess' sess.refresh_hash at' device_id' ip' user_agent' z.world r' same blocked
