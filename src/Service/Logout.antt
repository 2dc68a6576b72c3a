-- ===== src/Service/Logout.antt =====
-- AuthService.Logout (internal/service/logout.go).
pub mod Ends
use shelf_auth.Prelude.{String, if◌then◌else◌}
use shelf_auth.Platform.{Platform}
use shelf_auth.Domain.{non_empty}
use shelf_auth.Security.Token.{hash_sha256_hex}
use shelf_auth.Exec.{Exec, pure, ◌>>=◌, ◌>>◌, now}
use shelf_auth.Repo.Sessions.{revoke_by_hash}
use shelf_auth.Service.Refresh.{ignore}

unfoldable pub logout : Platform → String → Exec (Unit {0})
logout p raw_refresh =
    if non_empty raw_refresh
    then (do at ← now p; ignore (revoke_by_hash p (hash_sha256_hex p raw_refresh) at); pure tt)
    else pure tt
