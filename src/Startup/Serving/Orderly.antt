-- ===== src/Startup/Serving/Orderly.antt =====
-- What main has done at each of its places (cmd/shelf-auth/main.go).
use shelf_auth.Prelude.{
  ◌∷◌, [], String_eq, ℕ_eq, inl, inr, ℕ, Bool, List, if◌then◌else◌, Bool-cases, ap, ◌≡◌, true, ◌++◌,
  false, ◌&&◌, arith, ◌||◌, is_some, and-eq-true, Elem, All,
}
use shelf_auth.Startup.Serving.{
  HttpServer, Phase, Process, advance, run_process, wake, finish_main, MainEvent, Effect,
  serve_returned, is_waiting, is_returned, shutdown_returned, listens, after_shutdown, keys_tick,
  begins_shutdown, waiting, set_tick, shutting_down, interrupted, returned, main_woken, keys_ended,
  set_ended,
}
use shelf_auth.Platform.{Platform}
use shelf_auth.Startup.{Libraries}
use shelf_auth.Errors.{Result}
use shelf_auth.Startup.Serving.Stages.{next-by}

-- What main has done at each place, from the server that listens on; the end of Shutdown is one of the given
-- events.
abbrev IsOrderly : HttpServer → ℕ → List MainEvent → Phase → List Effect → Type 0
IsOrderly srv pool all waiting done = done ≡ listens srv ∷ []
IsOrderly srv pool all shutting_down done = done ≡ listens srv ∷ begins_shutdown 10000000000 ∷ []
IsOrderly srv pool all returned done =
    (r : Result (Unit {0})) × Elem (shutdown_returned r) all
    × (done ≡ listens srv ∷ begins_shutdown 10000000000 ∷ after_shutdown pool r)

module _ (p : Platform) (libs : Libraries) (pool : ℕ) where
  module _ (srv : HttpServer) (all : List MainEvent) where
    abbrev OrderlyProcess : Process → Type 0
    OrderlyProcess s = IsOrderly srv pool all s.phase s.effects

    of_waiting :
        (phase : Phase) (done : List Effect)
        → is_waiting phase ≡ true
        → IsOrderly srv pool all phase done
        → done ≡ listens srv ∷ []
    of_waiting waiting done w h = h
    of_waiting shutting_down done w h = absurd (ground arith)
    of_waiting returned done w h = absurd (ground arith)

    pub of_returned :
        (phase : Phase) (done : List Effect)
        → is_returned phase ≡ true
        → IsOrderly srv pool all phase done
        → (r : Result (Unit {0})) × Elem (shutdown_returned r) all
          × (done ≡ listens srv ∷ begins_shutdown 10000000000 ∷ after_shutdown pool r)
    of_returned waiting done w h = absurd (ground arith)
    of_returned shutting_down done w h = absurd (ground arith)
    of_returned returned done w h = h

    if-orderly :
        (b : Bool) (a s : Process)
        → OrderlyProcess a
        → OrderlyProcess s
        → OrderlyProcess (if b then a else s)
    if-orderly true a s h k = h
    if-orderly false a s h k = k

    wake-orderly : (s : Process) → OrderlyProcess s → OrderlyProcess (wake p libs s)
    wake-orderly s h = elim (Bool-cases (is_waiting s.phase && (s.cancelled || is_some s.err_ch))) [
      | inr stays ↦ rw stays h
      | inl goes ↦
          let w = (and-eq-true _ _ goes).0 in
          rw goes
            (ap (λ x. x ++ begins_shutdown 10000000000 ∷ []) (of_waiting s.phase s.effects w h))
    ]

    finish_main-orderly :
        (r : Result (Unit {0})) (phase : Phase) (s : Process)
        → Elem (shutdown_returned r) all
        → IsOrderly srv pool all phase s.effects
        → OrderlyProcess s
        → OrderlyProcess (finish_main p libs pool r phase s)
    finish_main-orderly r waiting s l h k = k
    finish_main-orderly r shutting_down s l h k = (r, l, ap (λ x. x ++ after_shutdown pool r) h)
    finish_main-orderly r returned s l h k = k

    advance-orderly :
        (e : MainEvent) (s : Process)
        → Elem e all
        → OrderlyProcess s
        → OrderlyProcess (advance p libs pool e s)
    unfolding advance
    advance-orderly interrupted s l h = h
    advance-orderly (serve_returned e) s l h = h
    advance-orderly main_woken s l h = wake-orderly s h
    advance-orderly (shutdown_returned r) s l h = finish_main-orderly r s.phase s l h h
    advance-orderly (keys_tick listing) s l h = if-orderly s.reloads_keys _ _ h h
    advance-orderly keys_ended s l h = if-orderly s.cancelled _ _ h h
    advance-orderly (set_tick walk) s l h = if-orderly s.refreshes_set _ _ h h
    advance-orderly set_ended s l h = if-orderly s.cancelled _ _ h h

    pub run-orderly :
        (es : List MainEvent) (s : Process)
        → All (λ e. Elem e all) es
        → OrderlyProcess s
        → OrderlyProcess (run_process p libs pool es s)
    unfolding run_process
    run-orderly [] s l h = h
    run-orderly (e ∷ es) s (l, ls) h =
        run-orderly es _ ls (next-by p libs pool OrderlyProcess e s h (advance-orderly e s l h))
