-- ===== src/Startup/Serving.antt =====
-- cmd/shelf-auth/main.go, from the running server to the end of the process. What happens to the process, from outside
-- and by the scheduler, is a sequence of events: a signal, the end of ListenAndServe or of Shutdown, a tick
-- of a ticker, a goroutine that goes on.
pub mod Stages
pub mod Orderly
pub mod Ends
pub mod Keys
pub mod Access
use shelf_auth.Prelude.{
  none, some, ◌∷◌, [], String_eq, ℕ_eq, String, Bool, ℕ, true, false, List, Option, if◌then◌else◌,
  ◌++◌, ◌&&◌, ◌||◌, is_some,
}
use shelf_auth.Settings.{Config}
use shelf_auth.Platform.{Duration, Platform}
use shelf_auth.Keys.Signing.{Signer, reload}
use shelf_auth.Errors.{Error, Result, ok, err}
use shelf_auth.Keys.Provider.{Provider, refresh_keys}
use shelf_auth.Startup.{Libraries, Program, Surroundings, start}
use shelf_auth.Keys.{Entry}
use shelf_auth.Pool.{close_handle}

pub record HttpServer : Type 0 where
  pub addr : String
  pub read_header_timeout : Duration
  pub read_timeout : Duration
  pub write_timeout : Duration
  pub idle_timeout : Duration

abbrev pub http_server : Config → HttpServer
http_server c = record {
  addr = c.http_addr;
  read_header_timeout = 5000000000;
  read_timeout = 10000000000;
  write_timeout = 10000000000;
  idle_timeout = 60000000000;
}

-- What main does to the server, the signals and the pool, in order.
pub data Effect : Type 0 where
  listens : HttpServer → Effect
  begins_shutdown : Duration → Effect
  forces_close : Effect
  cancels_shutdown : Effect
  releases_signals : Effect
  closes_pool : ℕ → Effect

-- Where main stands: at its select, in Shutdown, or after its return.
pub data Phase : Type 0 where
  waiting shutting_down returned : Phase

abbrev pub is_waiting : Phase → Bool
is_waiting waiting = true
is_waiting shutting_down = false
is_waiting returned = false

abbrev pub is_returned : Phase → Bool
is_returned waiting = false
is_returned shutting_down = false
is_returned returned = true

pub record Process : Type 0 where
  pub signer : Signer
  pub provider : Provider
  -- whether the goroutines of StartAutoReload and StartAutoRefresh run
  pub reloads_keys : Bool
  pub refreshes_set : Bool
  -- ctx, and the one place of errCh
  pub cancelled : Bool
  pub err_ch : Option Error
  pub phase : Phase
  pub effects : List Effect

pub data MainEvent : Type 0 where
  -- SIGINT or SIGTERM
  interrupted : MainEvent
  serve_returned : Error → MainEvent
  -- main goes on at its select
  main_woken : MainEvent
  shutdown_returned : Result (Unit {0}) → MainEvent
  -- a tick, with what the directory lists then; a goroutine that sees the context's end
  keys_tick : Option (List Entry) → MainEvent
  keys_ended : MainEvent
  set_tick : List Entry → MainEvent
  set_ended : MainEvent

-- The deferred calls, the last one first.
abbrev pub deferred : ℕ → List Effect
deferred pool = cancels_shutdown ∷ releases_signals ∷ closes_pool pool ∷ []

-- The pools that are open after what main did.
unfoldable pub left_open : List Effect → List ℕ → List ℕ
left_open [] open_pools = open_pools
left_open (listens srv ∷ done) open_pools = left_open done open_pools
left_open (begins_shutdown limit ∷ done) open_pools = left_open done open_pools
left_open (forces_close ∷ done) open_pools = left_open done open_pools
left_open (cancels_shutdown ∷ done) open_pools = left_open done open_pools
left_open (releases_signals ∷ done) open_pools = left_open done open_pools
left_open (closes_pool pool ∷ done) open_pools =
    left_open done (close_handle (some pool) open_pools)

abbrev pub after_shutdown : ℕ → Result (Unit {0}) → List Effect
after_shutdown pool (ok done) = deferred pool
after_shutdown pool (err e) = forces_close ∷ deferred pool

module _ (p : Platform) (libs : Libraries) where
  abbrev pub launch : Program → Process
  launch prog = record {
    signer = prog.signer;
    provider = prog.provider;
    reloads_keys = prog.reloads;
    refreshes_set = prog.reloads;
    cancelled = false;
    err_ch = none;
    phase = waiting;
    effects = listens (http_server prog.config) ∷ [];
  }

  -- The select of main.
  abbrev pub wake : Process → Process
  wake s =
      if is_waiting s.phase && (s.cancelled || is_some s.err_ch)
      then record s {
        phase = shutting_down;
        effects = s.effects ++ begins_shutdown 10000000000 ∷ [];
      }
      else s

  -- The end of main, after Shutdown.
  abbrev pub finish_main : ℕ → Result (Unit {0}) → Phase → Process → Process
  finish_main pool r waiting s = s
  finish_main pool r shutting_down s = record s {
    phase = returned;
    effects = s.effects ++ after_shutdown pool r;
  }
  finish_main pool r returned s = s

  unfoldable pub advance : ℕ → MainEvent → Process → Process
  advance pool interrupted s = record s { cancelled = true }
  advance pool (serve_returned e) s = record s { err_ch = some e }
  advance pool main_woken s = wake s
  advance pool (shutdown_returned r) s = finish_main pool r s.phase s
  advance pool (keys_tick listing) s =
      if s.reloads_keys then record s { signer = (reload libs.keys listing s.signer).1 } else s
  advance pool keys_ended s = if s.cancelled then record s { reloads_keys = false } else s
  advance pool (set_tick walk) s =
      if s.refreshes_set
      then record s { provider = (refresh_keys p libs.keys libs.marshal walk s.provider).1 }
      else s
  advance pool set_ended s = if s.cancelled then record s { refreshes_set = false } else s

  -- The process ends when main returns.
  unfoldable pub next_process : ℕ → MainEvent → Process → Process
  next_process pool e s = if is_returned s.phase then s else advance pool e s

  unfoldable pub run_process : ℕ → List MainEvent → Process → Process
  run_process pool [] s = s
  run_process pool (e ∷ es) s = run_process pool es (next_process pool e s)

  -- The status of an ended process with what main did, nothing while it runs.
  abbrev pub outcome : Process → Option (ℕ × List Effect)
  outcome s = if is_returned s.phase then some (0, s.effects) else none

  -- log.Printf or logger.Fatal, and os.Exit(1).
  unfoldable pub main : Surroundings → List MainEvent → Option (ℕ × List Effect)
  main e es = elim (start p libs e) [
    | err why ↦ some (1, [])
    | ok prog ↦ outcome (run_process prog.pool es (launch prog))
  ]
