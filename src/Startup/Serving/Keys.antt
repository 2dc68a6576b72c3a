-- ===== src/Startup/Serving/Keys.antt =====
-- The keys of a running process (cmd/shelf-auth/main.go): those that a sequence of reloads gives.
use shelf_auth.Prelude.{
  [], String_eq, ℕ_eq, refl, ℕ, List, Option, ◌≡◌, ◌++◌, Bool, ◌∷◌, ◌∙◌, if◌then◌else◌, ap, true,
  false,
}
use shelf_auth.Platform.{Platform}
use shelf_auth.Startup.{Libraries}
use shelf_auth.Startup.Serving.{
  Process, advance, run_process, Phase, MainEvent, finish_main, serve_returned, waiting,
  shutdown_returned, shutting_down, keys_tick, returned, set_tick, interrupted, main_woken,
  keys_ended, set_ended,
}
use shelf_auth.Keys.Signing.{auto_reload, Signer, reload}
use shelf_auth.Keys.Provider.{auto_refresh, Provider, refresh_keys}
use shelf_auth.Keys.{Entry}
use shelf_auth.Errors.{Result}
use shelf_auth.Startup.Serving.Stages.{next-by}

-- What a sequence of ticks gives, for each goroutine.
pub record IsRenewed (p : Platform) (libs : Libraries) (s t : Process) : Type 0 where
  pub listings : List (Option (List Entry))
  pub walks : List (List Entry)
  pub signer : t.signer ≡ auto_reload libs.keys listings s.signer
  pub provider : t.provider ≡ auto_refresh p libs.keys libs.marshal walks s.provider

module _ (p : Platform) (libs : Libraries) (pool : ℕ) where
  auto_reload-append :
      (ls ms : List (Option (List Entry))) (s : Signer)
      → auto_reload libs.keys ms (auto_reload libs.keys ls s) ≡ auto_reload libs.keys (ls ++ ms) s
  unfolding auto_reload
  auto_reload-append [] ms s = refl
  auto_reload-append (l ∷ ls) ms s = auto_reload-append ls ms _

  auto_refresh-append :
      (ls ms : List (List Entry)) (j : Provider)
      → auto_refresh p libs.keys libs.marshal ms (auto_refresh p libs.keys libs.marshal ls j)
        ≡ auto_refresh p libs.keys libs.marshal (ls ++ ms) j
  unfolding auto_refresh
  auto_refresh-append [] ms j = refl
  auto_refresh-append (l ∷ ls) ms j = auto_refresh-append ls ms _

  then-IsRenewed :
      (s t u : Process) → IsRenewed p libs s t → IsRenewed p libs t u → IsRenewed p libs s u
  then-IsRenewed s t u a b = record {
    listings = a.listings ++ b.listings;
    walks = a.walks ++ b.walks;
    signer =
        b.signer
        ∙ ap (auto_reload libs.keys b.listings) a.signer
        ∙ auto_reload-append a.listings b.listings s.signer;
    provider =
        b.provider
        ∙ ap (auto_refresh p libs.keys libs.marshal b.walks) a.provider
        ∙ auto_refresh-append a.walks b.walks s.provider;
  }

  same_keys : (s t : Process) → t.signer ≡ s.signer → t.provider ≡ s.provider → IsRenewed p libs s t
  unfolding auto_reload auto_refresh
  same_keys s t a b = record { listings = []; walks = []; signer = a; provider = b }

  if-IsRenewed :
      (b : Bool) (s t : Process) → IsRenewed p libs s t → IsRenewed p libs s (if b then t else s)
  if-IsRenewed true s t h = h
  if-IsRenewed false s t h = same_keys s s refl refl

  finish_main-IsRenewed :
      (r : Result (Unit {0})) (phase : Phase) (s : Process)
      → IsRenewed p libs s (finish_main p libs pool r phase s)
  finish_main-IsRenewed r waiting s = same_keys s s refl refl
  finish_main-IsRenewed r shutting_down s = same_keys s _ refl refl
  finish_main-IsRenewed r returned s = same_keys s s refl refl

  reloaded :
      (listing : Option (List Entry)) (s : Process)
      → IsRenewed p libs s (record s { signer = (reload libs.keys listing s.signer).1 })
  unfolding auto_reload auto_refresh
  reloaded listing s = record {
    listings = listing ∷ [];
    walks = [];
    signer = refl;
    provider = refl;
  }

  refreshed :
      (walk : List Entry) (s : Process)
      → IsRenewed p libs s
          (record s { provider = (refresh_keys p libs.keys libs.marshal walk s.provider).1 })
  unfolding auto_reload auto_refresh
  refreshed walk s = record { listings = []; walks = walk ∷ []; signer = refl; provider = refl }

  advance-IsRenewed : (e : MainEvent) (s : Process) → IsRenewed p libs s (advance p libs pool e s)
  unfolding advance
  advance-IsRenewed interrupted s = same_keys s _ refl refl
  advance-IsRenewed (serve_returned e) s = same_keys s _ refl refl
  advance-IsRenewed main_woken s = if-IsRenewed _ s _ (same_keys s _ refl refl)
  advance-IsRenewed (shutdown_returned r) s = finish_main-IsRenewed r s.phase s
  advance-IsRenewed (keys_tick listing) s = if-IsRenewed _ s _ (reloaded listing s)
  advance-IsRenewed keys_ended s = if-IsRenewed _ s _ (same_keys s _ refl refl)
  advance-IsRenewed (set_tick walk) s = if-IsRenewed _ s _ (refreshed walk s)
  advance-IsRenewed set_ended s = if-IsRenewed _ s _ (same_keys s _ refl refl)

  -- Whatever happens to the process: its signer and its provider are those that some sequence of reloads, and
  -- some sequence of refreshes, gives from the ones before.
  pub run-IsRenewed :
      (es : List MainEvent) (s : Process) → IsRenewed p libs s (run_process p libs pool es s)
  unfolding run_process
  run-IsRenewed [] s = same_keys s s refl refl
  run-IsRenewed (e ∷ es) s =
      then-IsRenewed s _ _
        (next-by p libs pool (IsRenewed p libs s) e s (same_keys s s refl refl)
          (advance-IsRenewed e s))
        (run-IsRenewed es _)
