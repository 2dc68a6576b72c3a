-- ===== src/Tests/Programs.antt =====
-- The program with requests to its routes, one after the other.
use shelf_auth.Prelude.{
  none, some, ◌∷◌, [], String_eq, ℕ_eq, refl, List, trim_space, ◌≢◌, ◌≡◌, false, true,
}
use shelf_auth.Http.Routes.{Visit, handle, status_of, route, post_method, login_page, refresh_page}
use shelf_auth.Startup.Serving.{Process, launch, keys_tick, interrupted}
use shelf_auth.Exec.{World}
use shelf_auth.Tests.Requests.{tok_request}
use shelf_auth.Startup.Running.{ProgramEvent, serve_events, asks, current_server, happens}
use shelf_auth.Samples.{sample_platform, runs, sample_world, web_session}
use shelf_auth.Http.Refresh.{refresh_handler}
use shelf_auth.Tests.Launch.{launch_libraries, next_token, launched}
use shelf_auth.Http.Address.{client_ip}
use shelf_auth.Keys.Tokens.{sign_access}
use shelf_auth.Startup.Running.History.{serve_events_once, serve_events-IsSound}
use shelf_auth.Keys.Signing.{signing_key, set_active_kid, new_signer, reload}
use shelf_auth.Startup.{override_kid}
use shelf_auth.Keys.{load_key, ends_in_pem, trim_extension}
use shelf_auth.Http.Routes.Shapes.{answer_shaped, answer_shaped-handle}
use shelf_auth.Service.Calls.Soundness.{IsSound}
use shelf_auth.Tests.Secrets.{sample_bcrypt}

abbrev phone_visit : Visit
phone_visit = record {
  request = tok_request;
  registration = none;
  credentials = some (record { email = "a@b.c"; password = "abc12345"; device_id = "phone" });
}

abbrev at_launch : Process
at_launch = launch sample_platform (launch_libraries next_token) (launched next_token)

-- A login, a tick at which the directory is not readable, a refresh, and a signal.
abbrev morning : List ProgramEvent
morning =
    asks (route post_method "/login" login_page) phone_visit
    ∷ happens (keys_tick none)
    ∷ asks (route post_method "/refresh" refresh_page) phone_visit
    ∷ happens interrupted
    ∷ []

-- A session that ends the refresh TTL of 100 after its start.
abbrev morning_world : World
morning_world = record sample_world {
  db = record sample_world.db { sessions = record web_session { created_at = 1900 } ∷ [] };
}

morning_world-IsSound : IsSound sample_platform 100 morning_world.db
unfolding runs trim_space
morning_world-IsSound = record { accounts = ((refl, refl), tt); sessions = ((refl, refl), tt) }

serve_events-IsSound_example :
    IsSound sample_platform 100
      (serve_events sample_platform
        (launch_libraries next_token)
        (launched next_token)
        morning
        (at_launch, morning_world)).1.db
serve_events-IsSound_example =
    serve_events-IsSound sample_platform (launch_libraries next_token) (launched next_token)
      sample_bcrypt morning at_launch morning_world morning_world-IsSound

refreshed_once :
    status_of
      (handle sample_platform
        (current_server sample_platform
          (launch_libraries next_token)
          (launched next_token)
          at_launch)
        refresh_page
        post_method
        phone_visit
        sample_world).0
    ≡ 200
unfolding handle refresh_handler client_ip runs trim_space sign_access signing_key override_kid
    set_active_kid new_signer reload load_key ends_in_pem trim_extension
refreshed_once = refl

abbrev after_refresh : World
after_refresh =
    (handle sample_platform
      (current_server sample_platform (launch_libraries next_token) (launched next_token) at_launch)
      refresh_page post_method phone_visit sample_world).1

abbrev later : Process × World
later =
    serve_events sample_platform (launch_libraries next_token) (launched next_token) morning
      (at_launch, after_refresh)

serve_events_once_example :
    status_of
      (handle sample_platform
        (current_server sample_platform (launch_libraries next_token) (launched next_token) later.0)
        refresh_page
        post_method
        phone_visit
        later.1).0
    ≢ 200
serve_events_once_example =
    serve_events_once sample_platform (launch_libraries next_token) (launched next_token)
      phone_visit phone_visit "tok" morning at_launch sample_world refl refl refreshed_once

-- A cookie that no session has.
abbrev lost_visit : Visit
lost_visit = record phone_visit { request = record tok_request { refresh_cookie = some "lost" } }

answer_shaped-handle_example :
    answer_shaped false
      (handle sample_platform
        (current_server sample_platform
          (launch_libraries next_token)
          (launched next_token)
          at_launch)
        refresh_page
        post_method
        lost_visit
        sample_world).0
    ≡ true
answer_shaped-handle_example =
    answer_shaped-handle sample_platform
      (current_server sample_platform (launch_libraries next_token) (launched next_token) at_launch)
      refresh_page post_method lost_visit sample_world
