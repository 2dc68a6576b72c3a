-- ===== src/Service/Me.antt =====
-- AuthService.Me (internal/service/me.go).
use shelf_auth.Prelude.{String, Bool}
use shelf_auth.Platform.{Platform, Time, EntityId}
use shelf_auth.Exec.{Exec, pure, ◌>>=◌}
use shelf_auth.Repo.Users.{find_by_id}

pub record MeResult : Type 0 where
  pub id : EntityId
  pub email : String
  pub email_verified : Bool
  pub created_at : Time

-- The result's CreatedAt is not filled in: it is the zero time.
unfoldable pub me : Platform → EntityId → Exec MeResult
me p user_id = do
  u ← find_by_id p user_id
  pure (record {
    id = u.id;
    email = u.email.value;
    email_verified = u.email_verified;
    created_at = 0;
  })
