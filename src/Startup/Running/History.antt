-- ===== src/Startup/Running/History.antt =====
-- The tables while the program (cmd/shelf-auth/main.go) runs.
use shelf_auth.Prelude.{
  some, ◌∷◌, [], String_eq, ℕ_eq, inl, inr, List, String, ◌≡◌, Bool-cases, ◌≢◌,
}
use shelf_auth.Platform.{Platform}
use shelf_auth.Startup.{Libraries, Program}
use shelf_auth.Startup.Serving.{Process, is_returned}
use shelf_auth.Startup.Running.{
  serve_event, serve_events, ProgramEvent, current_server, happens, asks,
}
use shelf_auth.Http.Routes.{Visit, status_of, handle, refresh_page, post_method}
use shelf_auth.Tokens.{SignerLaws}
use shelf_auth.Exec.{World, Db}
use shelf_auth.Keys.Tokens.RoundTrip.{token_signer-SignerLaws}
use shelf_auth.Repo.History.{Follows, Follows-Preorder}
use shelf_auth.Keys.Tokens.Accepted.{verify_access-keeps_db}
use shelf_auth.Http.Routes.Once.{refresh_page-spends, refresh_page_of_spent}
use shelf_auth.Repo.Searches.{IsSpent-Follows}
use shelf_auth.Http.Routes.History.{
  Follows-Conserves, Conserves, handle-Keeps, KeepsSound-Conserves,
}
use shelf_auth.Security.Password.Hashing.{BcryptLaws}
use shelf_auth.Exec.Preserves.{Preorder}
use shelf_auth.Service.Calls.Soundness.{IsSound, KeepsSound}

module _ (p : Platform) (libs : Libraries) (prog : Program) where
  current-laws : (s : Process) → SignerLaws (current_server p libs prog s).service.signer
  current-laws s = token_signer-SignerLaws p libs.tokens s.signer

  -- A relation that every server of the program keeps to.
  abbrev Conserved : (Db → Db → Type 0) → Type 0
  Conserved R = (s : Process) → Conserves p (current_server p libs prog s).service R

  module _ (R : Db → Db → Type 0) (order : Preorder R) (c : Conserved R) where
    serve_event-Keeps :
        (e : ProgramEvent) (s : Process) (w : World)
        → R w.db (serve_event p libs prog e (s, w)).1.db
    unfolding serve_event
    serve_event-Keeps (happens e) s w = order.reflexive w.db
    serve_event-Keeps (asks r v) s w = elim (Bool-cases (is_returned s.phase)) [
      | inl over ↦ rw over (order.reflexive w.db)
      | inr going ↦ rw going (
          handle-Keeps p (current_server p libs prog s) R (c s)
            (verify_access-keeps_db p libs.tokens s.signer) r.endpoint r.method v w)
    ]

    serve_events-Keeps :
        (es : List ProgramEvent) (s : Process) (w : World)
        → R w.db (serve_events p libs prog es (s, w)).1.db
    unfolding serve_events
    serve_events-Keeps [] s w = order.reflexive w.db
    serve_events-Keeps (e ∷ es) s w =
        let (s', w') = serve_event p libs prog e (s, w) in
        order.transitive (serve_event-Keeps e s w) (serve_events-Keeps es s' w')

  serve_events-Follows :
      (es : List ProgramEvent) (s : Process) (w : World)
      → Follows p w.db (serve_events p libs prog es (s, w)).1.db
  serve_events-Follows =
      serve_events-Keeps (Follows p) (Follows-Preorder p)
        λ s. Follows-Conserves p (current_server p libs prog s).service (current-laws s)

  -- Whatever happens to the program, and whatever requests come to its routes, one after the other: if each
  -- account's address had the form of one and no white space around it, and each session was that of
  -- an account with a verified address and ended the refresh TTL after its start, then it is
  -- still so. A bcrypt hash matches what it was made from, and is not blank.
  pub serve_events-IsSound :
      BcryptLaws p
      → (es : List ProgramEvent) (s : Process) (w : World)
      → IsSound p prog.server.service.refresh_ttl w.db
      → IsSound p prog.server.service.refresh_ttl (serve_events p libs prog es (s, w)).1.db
  serve_events-IsSound bcrypt =
      serve_events-Keeps (KeepsSound p prog.server.service.refresh_ttl)
        (record { reflexive = λ a v. v; transitive = λ f g v. g (f v) })
        λ s. KeepsSound-Conserves p (current_server p libs prog s).service (current-laws s) bcrypt

  -- After a request to the route of /refresh that is answered with 200, no request there with the same cookie
  -- is, whatever else the request says, whatever requests come in between, one after the other,
  -- and whatever happens to the program: reloads of the keys, signals.
  pub serve_events_once :
      (v v' : Visit) (raw : String) (es : List ProgramEvent) (s : Process) (w : World)
      → v.request.refresh_cookie ≡ some raw
      → v'.request.refresh_cookie ≡ some raw
      → status_of (handle p (current_server p libs prog s) refresh_page post_method v w).0 ≡ 200
      → let (s', w') =
          serve_events p libs prog es
            (s, (handle p (current_server p libs prog s) refresh_page post_method v w).1) in
        status_of (handle p (current_server p libs prog s') refresh_page post_method v' w').0 ≢ 200
  serve_events_once v v' raw es s w same same' h =
      let w1 = (handle p (current_server p libs prog s) refresh_page post_method v w).1 in
      let (s', w') = serve_events p libs prog es (s, w1) in
      let spent =
        refresh_page-spends p (current_server p libs prog s) (current-laws s) v raw w same h in
      refresh_page_of_spent p (current_server p libs prog s') (current-laws s') v' raw w' same'
        (IsSpent-Follows _ (serve_events-Follows es s w1) spent)
