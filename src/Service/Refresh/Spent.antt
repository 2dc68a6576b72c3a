-- ===== src/Service/Refresh/Spent.antt =====
-- Refresh tokens that were exchanged or revoked (internal/service/refresh.go).
use shelf_auth.Platform.{Platform, Time}
use shelf_auth.Service.Config.{AuthService}
use shelf_auth.Tokens.{SignerLaws}
use shelf_auth.Prelude.{
  refl, String, is_some, List, ◌≡◌, ◌||◌, some, ◌≢◌, true, changed, arith, ◌==◌, eq_of_some,
  text_eq_iff, sym, String_eq, ◌∙◌, subst,
}
use shelf_auth.Domain.{Session}
use shelf_auth.Exec.{World, Db}
use shelf_auth.Service.Refresh.{RefreshResult, refresh}
use shelf_auth.Service.Refresh.Rotation.{IsUsable, RotatedTo, refresh-eq-ok}
use shelf_auth.Repo.Searches.{IsSpent, IsSpent-Follows, by_hash-update, by_hash-append}
use shelf_auth.Repo.Sessions.{by_hash, set_replaced}
use shelf_auth.Security.Token.{hash_sha256_hex}
use shelf_auth.Service.Calls.{Call, run}
use shelf_auth.Errors.{ok}
use shelf_auth.Service.Calls.Invariants.{run-Follows}

module _ (p : Platform) (s : AuthService) (laws : SignerLaws s.signer) where
  -- A token is spent once its session's row, or what was read of it before, was rotated.
  pub IsSpent-of_rotation :
      (hash device_id : String) (old row : Session) (at : Time) (r : RefreshResult)
      (before after : Db)
      → by_hash hash before.sessions ≡ some row
      → row.jti ≡ old.jti
      → RotatedTo p s old at device_id r before after
      → IsSpent hash after
  IsSpent-of_rotation hash device_id old row at r before after found same m = record {
    session = changed (λ t. t.jti == old.jti) (set_replaced m.link_id) row;
    found = rw m.sessions (
        by_hash-update hash _ (set_replaced m.link_id) _ (λ t. ground arith)
          (by_hash-append hash before.sessions _ found));
    over = ground (arith, text_eq_iff row.jti old.jti);
  }

  pub IsSpent-of_refresh :
      (raw device_id ip user_agent : String) (w : World) {r : RefreshResult}
      → (refresh p s raw device_id ip user_agent w).0 ≡ ok r
      → IsSpent (hash_sha256_hex p raw) (refresh p s raw device_id ip user_agent w).1.db
  IsSpent-of_refresh raw device_id ip user_agent w {r} h =
      let (old, found, usable, m) = refresh-eq-ok p s laws device_id ip user_agent raw w h in
      IsSpent-of_rotation _ device_id old old _ r w.db _ found refl m

  not_usable :
      (sess : Session) (at : Time)
      → IsUsable sess at
      → (is_some sess.revoked_at || is_some sess.replaced_by) ≢ true
  not_usable sess at u h = ground (arith, u.unrevoked, u.unreplaced)

  -- A spent token is refused.
  pub refresh_of_spent :
      (raw device_id ip user_agent : String) (w : World) (r : RefreshResult)
      → IsSpent (hash_sha256_hex p raw) w.db
      → (refresh p s raw device_id ip user_agent w).0 ≢ ok r
  refresh_of_spent raw device_id ip user_agent w r v h =
      let (old, found, usable, m) = refresh-eq-ok p s laws device_id ip user_agent raw w h in
      let same : v.session ≡ old = eq_of_some (sym v.found ∙ found) in
      not_usable old _ usable
        (subst (λ x. (is_some x.revoked_at || is_some x.replaced_by) ≡ true) same v.over)

  -- After a refresh token has been exchanged, no later refresh with it succeeds, whatever calls
  -- of the service, in sequence, come in between. The signer is one that leaves the database
  -- alone.
  pub refresh_once :
      (raw device_id ip user_agent : String) (w : World) (r : RefreshResult) (cs : List Call)
      (device_id' ip' user_agent' : String) (r' : RefreshResult)
      → (refresh p s raw device_id ip user_agent w).0 ≡ ok r
      → (refresh p s raw device_id' ip' user_agent'
          (run p s cs (refresh p s raw device_id ip user_agent w).1)).0
        ≢ ok r'
  refresh_once raw device_id ip user_agent w r cs device_id' ip' user_agent' r' h =
      refresh_of_spent raw device_id' ip' user_agent' _ r' (
        IsSpent-Follows _ (run-Follows p s laws cs _)
          (IsSpent-of_refresh raw device_id ip user_agent w h))
