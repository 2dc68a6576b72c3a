-- ===== src/Tests/Ledgers.antt =====
-- A day of calls as events of the ledger.
use shelf_auth.Prelude.{◌∷◌, [], String_eq, ℕ_eq, List, ◌≡◌}
use shelf_auth.Service.Calls.{Call, login_call, refresh_call, logout_call, trace, run}
use shelf_auth.Service.Ledger.{Event, Plays, replay}
use shelf_auth.Samples.{sample_platform, sample_world, sample_service, sample_laws}
use shelf_auth.Service.Ledger.View.{view}
use shelf_auth.Service.Ledger.Refinement.{run-Plays}

-- A login, a refresh, the same token again, and a logout.
abbrev day : List Call
day =
    login_call "a@b.c" "abc12345" "phone" "" "ua"
    ∷ refresh_call "tok" "web" "" "ua"
    ∷ refresh_call "tok" "web" "" "ua"
    ∷ logout_call "tok"
    ∷ []

run-Plays_example :
    (es : List Event) × Plays sample_platform
      (view sample_world.db.sessions)
      (trace sample_platform sample_service day sample_world)
      es
    × (view (run sample_platform sample_service day sample_world).db.sessions
        ≡ replay es (view sample_world.db.sessions))
run-Plays_example = run-Plays sample_platform sample_service sample_laws day sample_world
