-- ===== src/Http/Session/Laws.antt =====
-- Laws of MeHandler (internal/httpserver/handlers/me.go).
use shelf_auth.Http.Session.{me_handler, me_reply, me_failed}
use shelf_auth.Platform.{Platform, EntityId}
use shelf_auth.Service.Me.{me}
use shelf_auth.Repo.Users.{find_by_id}
use shelf_auth.Http.{fail, text}
use shelf_auth.Exec.{statement, World, ◌>>=◌}
use shelf_auth.Prelude.{ℕ_eq, ◌≡◌, some, false, none, find, ◌==◌, arith}
use shelf_auth.Domain.{is_zero}

-- An authenticated request for an account that is not in the table is answered with 500, not with
-- the 401 that the handler has for ErrUserNotFound, where the database answers the query.
me_handler_unknown :
    (p : Platform) (id : EntityId) (w : World)
    → is_zero id ≡ false
    → find (λ u. u.id == id) w.db.users ≡ none
    → p.fault w.tick ≡ none
    → (me_handler p (some id) w).0 ≡ fail 500 "INTERNAL" (text "internal error")
unfolding me_handler me_reply me_failed me find_by_id statement ◌>>=◌
me_handler_unknown p id w valid unknown answers = ground arith
