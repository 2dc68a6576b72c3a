-- ===== src/Startup/Serving/Ends.antt =====
-- The end of the process (cmd/shelf-auth/main.go).
use shelf_auth.Prelude.{
  some, ◌∷◌, String_eq, ℕ_eq, refl, ℕ, List, ◌≡◌, true, ◌∙◌, ap, Elem, self-All, [], arith,
  nat_eq_iff,
}
use shelf_auth.Platform.{Platform}
use shelf_auth.Startup.{Libraries, Surroundings, Program, start}
use shelf_auth.Startup.Serving.{
  Process, main, MainEvent, outcome, run_process, launch, listens, http_server, begins_shutdown,
  after_shutdown, shutdown_returned, left_open, HttpServer, Effect,
}
use shelf_auth.Startup.Serving.Stages.{is_over, is_stop, stopping, process_ends}
use shelf_auth.Errors.{Result, ok, err}
use shelf_auth.Startup.Serving.Orderly.{run-orderly, of_returned}
use shelf_auth.Pool.{close_handle, open_pool}
use shelf_auth.Startup.Wired.{start-eq-ok}

module _ (p : Platform) (libs : Libraries) (pool : ℕ) where
  outcome-over : (s : Process) → is_over s ≡ true → outcome p libs s ≡ some (0, s.effects)
  outcome-over s over = rw over refl

-- From the server that listens to the end of main.
abbrev pub course : HttpServer → ℕ → Result (Unit {0}) → List Effect
course srv pool last = listens srv ∷ begins_shutdown 10000000000 ∷ after_shutdown pool last

closes_all :
    (srv : HttpServer) (pool : ℕ) (last : Result (Unit {0}))
    → left_open (course srv pool last) (pool ∷ []) ≡ []
unfolding left_open close_handle
closes_all srv pool (ok done) = ground (arith, nat_eq_iff pool pool)
closes_all srv pool (err e) = ground (arith, nat_eq_iff pool pool)

module _ (p : Platform) (libs : Libraries) (e : Surroundings) where
  main_of_started :
      (prog : Program) (es : List MainEvent)
      → start p libs e ≡ ok prog
      → main p libs e es ≡ outcome p libs (run_process p libs prog.pool es (launch p libs prog))
  unfolding main
  main_of_started prog es starts = rw (main, starts) refl

  -- Once the program has started, its process ends after a signal or the end of the server, whatever else
  -- happens before and after, if later main goes on at its select and after that Shutdown returns, with or
  -- without an error: the status is 0, and main has begun one shutdown with 10 seconds for it, has
  -- closed the server by force if Shutdown returned an error, and at last has closed the pool, so that
  -- none of those that it opened is left open.
  pub main_ends :
      (prog : Program) (stop : MainEvent) (r : Result (Unit {0}))
      (before between during after : List MainEvent)
      → start p libs e ≡ ok prog
      → is_stop stop ≡ true
      → (last : Result (Unit {0})) × Elem
          (shutdown_returned last)
          (stopping before stop between during r after)
        × (main p libs e (stopping before stop between during r after)
            ≡ some (0, course (http_server prog.config) prog.pool last))
        × (left_open
              (course (http_server prog.config) prog.pool last)
              (open_pool libs.pool prog.config.database_url).1
            ≡ [])
  main_ends prog stop r before between during after starts h =
      let es = stopping before stop between during r after in
      let s = launch p libs prog in
      let srv = http_server prog.config in
      let over = process_ends p libs prog.pool stop r before between during after s h in
      let orderly = run-orderly p libs prog.pool srv es es s (self-All es es (λ y l. l)) refl in
      let (last, listed, done) = of_returned p libs prog.pool srv es _ _ over orderly in
      (
        last,
        listed,
        main_of_started prog es starts
            ∙ outcome-over p libs prog.pool (run_process p libs prog.pool es s) over
            ∙ ap (λ x. some (0, x)) done,
        rw (start-eq-ok p libs e prog starts).opened (closes_all srv prog.pool last),
      )
