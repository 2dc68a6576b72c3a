-- ===== src/Startup/Serving/Stages.antt =====
-- The places of main, which it only leaves forwards (cmd/shelf-auth/main.go).
use shelf_auth.Prelude.{
  ◌∷◌, [], String_eq, ℕ_eq, refl, inl, inr, List, Bool, true, ◌||◌, not, ◌++◌, ℕ, is_some, ◌≡◌,
  Bool-cases, false, arith, subst, sym, ◌∙◌,
}
use shelf_auth.Startup.Serving.{
  MainEvent, Process, is_returned, serve_returned, is_waiting, main_woken, Phase, advance,
  run_process, next_process, shutdown_returned, finish_main, wake, interrupted, waiting, keys_tick,
  shutting_down, set_tick, returned, keys_ended, set_ended,
}
use shelf_auth.Platform.{Platform}
use shelf_auth.Errors.{Result}
use shelf_auth.Startup.{Libraries}

-- The events that make main leave its select.
abbrev pub is_stop : MainEvent → Bool
is_stop interrupted = true
is_stop (serve_returned e) = true
is_stop e = false

abbrev stop_asked : Process → Bool
stop_asked s = s.cancelled || is_some s.err_ch

abbrev has_left : Process → Bool
has_left s = not (is_waiting s.phase)

abbrev pub is_over : Process → Bool
is_over s = is_returned s.phase

-- A stop, later main that goes on, and later the end of Shutdown, among other events.
abbrev pub stopping :
    List MainEvent
    → MainEvent
    → List MainEvent
    → List MainEvent
    → Result (Unit {0})
    → List MainEvent
    → List MainEvent
stopping before stop between during r after =
    before ++ (stop ∷ (between ++ (main_woken ∷ (during ++ (shutdown_returned r ∷ after)))))

module _ (p : Platform) (libs : Libraries) (pool : ℕ) where
  abbrev Keeps : (Process → Bool) → Type 0
  Keeps test =
      (e : MainEvent) (s : Process) → test s ≡ true → test (next_process p libs pool e s) ≡ true

  finish_main-stop_asked :
      (r : Result (Unit {0})) (phase : Phase) (s : Process)
      → stop_asked s ≡ true
      → stop_asked (finish_main p libs pool r phase s) ≡ true
  finish_main-stop_asked r waiting s h = h
  finish_main-stop_asked r shutting_down s h = h
  finish_main-stop_asked r returned s h = h

  advance-stop_asked :
      (e : MainEvent) (s : Process)
      → stop_asked s ≡ true
      → stop_asked (advance p libs pool e s) ≡ true
  unfolding advance
  advance-stop_asked interrupted s h = refl
  advance-stop_asked (serve_returned e) s h = ground arith
  advance-stop_asked main_woken s h = ground arith
  advance-stop_asked (shutdown_returned r) s h = finish_main-stop_asked r s.phase s h
  advance-stop_asked (keys_tick listing) s h = ground arith
  advance-stop_asked keys_ended s h = ground arith
  advance-stop_asked (set_tick walk) s h = ground arith
  advance-stop_asked set_ended s h = ground arith

  finish_main-has_left :
      (r : Result (Unit {0})) (phase : Phase) (s : Process)
      → has_left s ≡ true
      → has_left (finish_main p libs pool r phase s) ≡ true
  finish_main-has_left r waiting s h = h
  finish_main-has_left r shutting_down s h = refl
  finish_main-has_left r returned s h = h

  advance-has_left :
      (e : MainEvent) (s : Process) → has_left s ≡ true → has_left (advance p libs pool e s) ≡ true
  unfolding advance
  advance-has_left interrupted s h = h
  advance-has_left (serve_returned e) s h = h
  advance-has_left main_woken s h = ground arith
  advance-has_left (shutdown_returned r) s h = finish_main-has_left r s.phase s h
  advance-has_left (keys_tick listing) s h = ground arith
  advance-has_left keys_ended s h = ground arith
  advance-has_left (set_tick walk) s h = ground arith
  advance-has_left set_ended s h = ground arith

  run_kept :
      (test : Process → Bool)
      → Keeps test
      → (es : List MainEvent) (s : Process) → test s ≡ true
      → test (run_process p libs pool es s) ≡ true
  unfolding run_process
  run_kept test keeps [] s h = h
  run_kept test keeps (e ∷ es) s h = run_kept test keeps es _ (keeps e s h)

  -- An event leaves a process that has ended alone.
  pub next-by :
      (P : Process → Type 0) (e : MainEvent) (s : Process)
      → P s
      → P (advance p libs pool e s)
      → P (next_process p libs pool e s)
  unfolding next_process
  next-by P e s same moved = elim (Bool-cases (is_returned s.phase)) [
    | inl over ↦ rw over same
    | inr going ↦ rw going moved
  ]

  stop_asked-kept : Keeps stop_asked
  stop_asked-kept e s h = next-by (λ s. stop_asked s ≡ true) e s h (advance-stop_asked e s h)

  has_left-kept : Keeps has_left
  has_left-kept e s h = next-by (λ s. has_left s ≡ true) e s h (advance-has_left e s h)

  is_over-kept : Keeps is_over
  unfolding next_process
  is_over-kept e s h = ground arith

  run-append :
      (es fs : List MainEvent) (s : Process)
      → run_process p libs pool (es ++ fs) s
        ≡ run_process p libs pool fs (run_process p libs pool es s)
  unfolding run_process
  run-append [] fs s = refl
  run-append (e ∷ es) fs s = run-append es fs _

  abbrev has_stop : Process → Bool
  has_stop s = is_over s || stop_asked s

  stop_seen :
      (e : MainEvent) (s : Process)
      → is_stop e ≡ true
      → has_stop (next_process p libs pool e s) ≡ true
  unfolding next_process advance
  stop_seen interrupted s h = ground arith
  stop_seen (serve_returned e) s h = ground arith
  stop_seen main_woken s h = absurd (ground arith)
  stop_seen (shutdown_returned r) s h = absurd (ground arith)
  stop_seen (keys_tick listing) s h = absurd (ground arith)
  stop_seen keys_ended s h = absurd (ground arith)
  stop_seen (set_tick walk) s h = absurd (ground arith)
  stop_seen set_ended s h = absurd (ground arith)

  has_stop-kept : Keeps has_stop
  has_stop-kept e s h = elim (Bool-cases (is_over s)) [
    | inl over ↦ rw (is_over-kept e s over) refl
    | inr going ↦ ground (arith, stop_asked-kept e s (ground arith))
  ]

  wake-leaves : (s : Process) → stop_asked s ≡ true → has_left (wake p libs s) ≡ true
  wake-leaves s h = ground arith

  returned_left : (phase : Phase) → is_returned phase ≡ true → is_waiting phase ≡ false
  returned_left waiting h = absurd (ground arith)
  returned_left shutting_down h = refl
  returned_left returned h = refl

  woken_leaves :
      (s : Process) → has_stop s ≡ true → has_left (next_process p libs pool main_woken s) ≡ true
  unfolding next_process advance
  woken_leaves s h = elim (Bool-cases (is_over s)) [
    | inl over ↦ rw (over, returned_left s.phase over) refl
    | inr going ↦ rw going (wake-leaves s (ground arith))
  ]

  finish_main-ends :
      (r : Result (Unit {0})) (phase : Phase) (s : Process)
      → is_waiting phase ≡ false
      → is_returned phase ≡ false
      → is_over (finish_main p libs pool r phase s) ≡ true
  finish_main-ends r waiting s h k = absurd (ground arith)
  finish_main-ends r shutting_down s h k = refl
  finish_main-ends r returned s h k = absurd (ground arith)

  shut_down_ends :
      (r : Result (Unit {0})) (s : Process)
      → has_left s ≡ true
      → is_over (next_process p libs pool (shutdown_returned r) s) ≡ true
  unfolding next_process advance
  shut_down_ends r s h = elim (Bool-cases (is_over s)) [
    | inl over ↦ rw over over
    | inr going ↦ rw going (finish_main-ends r s.phase s (ground arith) going)
  ]

  pub process_ends :
      (stop : MainEvent) (r : Result (Unit {0})) (before between during after : List MainEvent)
      (s : Process)
      → is_stop stop ≡ true
      → is_over (run_process p libs pool (stopping before stop between during r after) s) ≡ true
  unfolding run_process
  process_ends stop r before between during after s h =
      let s1 = next_process p libs pool stop (run_process p libs pool before s) in
      let s2 = run_process p libs pool between s1 in
      let s3 = run_process p libs pool during (next_process p libs pool main_woken s2) in
      let asked = run_kept has_stop has_stop-kept between s1 (stop_seen stop _ h) in
      let left = run_kept has_left has_left-kept during _ (woken_leaves s2 asked) in
      let over = run_kept is_over is_over-kept after _ (shut_down_ends r s3 left) in
      subst (λ x. is_over x ≡ true)
        (sym (run-append before _ s ∙ run-append between _ s1 ∙ run-append during _ _)) over
