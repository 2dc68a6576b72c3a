-- ===== src/Http/Routes/Safe.antt =====
-- What the routes of the router (internal/httpserver/router.go) may change.
use shelf_auth.Prelude.{
  some, String_eq, ℕ_eq, refl, inl, inr, Bool, false, String, true, ◌≡◌, All, arith, ap, ◌∙◌, Elem,
  All-Elem,
}
use shelf_auth.Http.Routes.{
  Method, Server, get_method, head_method, handle, post_method, Visit, serve_route, routes, Route,
}
use shelf_auth.Http.Session.{me_handler, me_reply}
use shelf_auth.Platform.{Platform, EntityId}
use shelf_auth.Service.Me.{me}
use shelf_auth.Repo.Users.{find_by_id}
use shelf_auth.Exec.{World, statement, ◌>>=◌}
use shelf_auth.Http.{Request}
use shelf_auth.Http.Auth.{me_route}
use shelf_auth.Http.Auth.Laws.{auth_middleware-cases}

abbrev pub is_post : Method → Bool
is_post get_method = false
is_post head_method = false
is_post post_method = true

me_handler-keeps_db :
    (p : Platform) (id : EntityId) (w : World) → (me_handler p (some id) w).1.db ≡ w.db
unfolding me_handler me_reply me find_by_id statement ◌>>=◌
me_handler-keeps_db p id w = ground arith

module _ (p : Platform) (srv : Server)
    (keeps : (t : String) (w : World) → (srv.verifier.verify_access t w).1.db ≡ w.db) where
  pub me_route-keeps_db : (r : Request) (w : World) → (me_route p srv.verifier r w).1.db ≡ w.db
  me_route-keeps_db r w =
      elim (auth_middleware-cases p srv.verifier (λ id. me_handler p (some id)) r w
        (λ t. keeps t w)) [
          | inl (status, same) ↦ same
          | inr a ↦ ap (λ x. x.1.db) a.answered ∙ me_handler-keeps_db p a.id _ ∙ keeps _ w
        ]

  abbrev IsSafe : Route → Type 0
  IsSafe r =
      is_post r.method ≡ false → (v : Visit) (w : World) → (serve_route p srv r v w).1.1.db ≡ w.db

  routes-IsSafe : All IsSafe routes
  unfolding handle
  routes-IsSafe = (
    λ m v w. refl,
    (
      λ m v w. refl,
      (
        λ m v w. refl,
        (
          λ m v w. refl,
          (
            λ m v w. refl,
            (
              λ m v w. refl,
              (
                λ m. absurd (ground arith),
                (
                  λ m. absurd (ground arith),
                  (
                    λ m. absurd (ground arith),
                    (λ m. absurd (ground arith), (λ m v w. me_route-keeps_db v.request w, tt)),
                  ),
                ),
              ),
            ),
          ),
        ),
      ),
    ),
  )

  -- Every GET and every HEAD route of the table, that of the account included, answers each request with
  -- the database unchanged, where the verifier leaves it alone.
  pub safe_route :
      (r : Route)
      → Elem r routes
      → is_post r.method ≡ false
      → (v : Visit) (w : World) → (serve_route p srv r v w).1.1.db ≡ w.db
  safe_route r listed safe v w = All-Elem IsSafe r routes routes-IsSafe listed safe v w
