-- ===== src/Startup/Running.antt =====
-- The whole program: the process of cmd/shelf-auth/main.go and the requests that its router
-- (internal/httpserver/router.go) serves while it runs, one event after the other.
pub mod History
use shelf_auth.Prelude.{none, some, ◌∷◌, [], String_eq, ℕ_eq, refl, inl, inr, List, if◌then◌else◌}
use shelf_auth.Startup.Serving.{MainEvent, Process, next_process, is_returned}
use shelf_auth.Platform.{Platform}
use shelf_auth.Http.Routes.{Route, Visit, Server, serve_route}
use shelf_auth.Startup.{Libraries, Program}
use shelf_auth.Exec.{World}
use shelf_auth.Keys.Tokens.{token_signer, token_verifier}

pub data ProgramEvent : Type 0 where
  happens : MainEvent → ProgramEvent
  -- a request that the router matches with a route
  asks : Route → Visit → ProgramEvent

module _ (p : Platform) (libs : Libraries) (prog : Program) where
  -- NewRouter is given the signer and the provider by reference: a request meets the keys of its time.
  abbrev pub current_server : Process → Server
  current_server s = record prog.server {
    service = record prog.server.service { signer = token_signer p libs.tokens s.signer };
    verifier = token_verifier p libs.tokens s.signer;
    key_set = s.provider.held;
  }

  -- Nothing is served after the return of main.
  unfoldable pub serve_event : ProgramEvent → Process × World → Process × World
  serve_event (happens e) (s, w) = (next_process p libs prog.pool e s, w)
  serve_event (asks r v) (s, w) =
      (s, if is_returned s.phase then w else (serve_route p (current_server s) r v w).1.1)

  unfoldable pub serve_events : List ProgramEvent → Process × World → Process × World
  serve_events [] x = x
  serve_events (e ∷ es) x = serve_events es (serve_event e x)
