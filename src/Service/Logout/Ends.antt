-- ===== src/Service/Logout/Ends.antt =====
-- Laws of AuthService.Logout (internal/service/logout.go).
use shelf_auth.Service.Logout.{logout}
use shelf_auth.Platform.{Platform}
use shelf_auth.Exec.{◌>>=◌, World, statement}
use shelf_auth.Prelude.{
  String, ◌≡◌, arith, List, true, some, suc, none, changed, ◌≢◌, text_eq_iff, update,
}
use shelf_auth.Domain.{Session, non_empty}
use shelf_auth.Errors.{ok}
use shelf_auth.Repo.Sessions.{revoke_by_hash, update_rows, by_hash, is_live_with, set_revoked}
use shelf_auth.Service.Config.{AuthService}
use shelf_auth.Tokens.{SignerLaws}
use shelf_auth.Service.Calls.{Call, run}
use shelf_auth.Service.Refresh.{RefreshResult, refresh}
use shelf_auth.Security.Token.{hash_sha256_hex}
use shelf_auth.Repo.Searches.{IsSpent, by_hash-update, IsSpent-Follows, hash_of_by_hash}
use shelf_auth.Service.Refresh.Spent.{refresh_of_spent}
use shelf_auth.Service.Calls.Invariants.{run-Follows}

pub logout_revokes :
    (p : Platform) (raw : String) (w : World)
    → non_empty raw ≡ true
    → p.fault (suc w.tick) ≡ none
    → (logout p raw w).1.db ≡ record w.db {
      sessions =
          update
            (is_live_with (hash_sha256_hex p raw))
            (set_revoked (p.clock w.tick))
            w.db.sessions;
    }
unfolding logout ◌>>=◌ revoke_by_hash statement update_rows
logout_revokes p raw w given answers = ground arith

module _ (p : Platform) (raw : String) (w : World) (sess : Session) where
  IsSpent-of_logout :
      non_empty raw ≡ true
      → by_hash (hash_sha256_hex p raw) w.db.sessions ≡ some sess
      → p.fault (suc w.tick) ≡ none
      → IsSpent (hash_sha256_hex p raw) (logout p raw w).1.db
  IsSpent-of_logout given found answers = rw (logout_revokes p raw w given answers) (record {
    session = changed (is_live_with (hash_sha256_hex p raw)) (set_revoked (p.clock w.tick)) sess;
    found =
        by_hash-update (hash_sha256_hex p raw) (is_live_with (hash_sha256_hex p raw))
          (set_revoked (p.clock w.tick)) w.db.sessions (λ t. ground arith) found;
    over = ground (
      arith,
      text_eq_iff sess.refresh_hash (hash_sha256_hex p raw),
      hash_of_by_hash (hash_sha256_hex p raw) w.db.sessions found,
    );
  })

  -- After a logout with a token that has a session, where the database answers the update, no
  -- refresh with the token succeeds, whatever calls of the service, in sequence, come in between.
  -- The signer is one that leaves the database alone.
  pub logout_ends :
      (s : AuthService) (laws : SignerLaws s.signer) (cs : List Call)
      (device_id ip user_agent : String) (r : RefreshResult)
      → non_empty raw ≡ true
      → by_hash (hash_sha256_hex p raw) w.db.sessions ≡ some sess
      → p.fault (suc w.tick) ≡ none
      → (refresh p s raw device_id ip user_agent (run p s cs (logout p raw w).1)).0 ≢ ok r
  logout_ends s laws cs device_id ip user_agent r given found answers =
      refresh_of_spent p s laws raw device_id ip user_agent _ r
        (IsSpent-Follows _ (run-Follows p s laws cs _) (IsSpent-of_logout given found answers))
