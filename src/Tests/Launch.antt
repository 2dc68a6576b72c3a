-- ===== src/Tests/Launch.antt =====
-- A program that starts, and a login there whose token opens the account.
use shelf_auth.Keys.Tokens.{sign_access, token_verifier, Claims, access_token_claims}
use shelf_auth.Tests.Directories.{sample_library}
use shelf_auth.Prelude.{
  none, some, ◌∷◌, [], String_eq, ℕ_eq, refl, ◌≡◌, true, arith, trim_space, append, find, List,
}
use shelf_auth.Settings.{Config, load}
use shelf_auth.Keys.Signing.{new_signer, signing_key, reload, set_active_kid, key_with}
use shelf_auth.Http.Auth.{me_route}
use shelf_auth.Keys.{load_key, ends_in_pem, trim_extension}
use shelf_auth.Samples.{sample_platform, sample_world, runs, alice, web_session}
use shelf_auth.Errors.{ok}
use shelf_auth.Tests.OneToken.{only_laws, only}
use shelf_auth.Startup.{Libraries, Surroundings, Program, start, wire, override_kid}
use shelf_auth.Startup.Wired.{IsWired, start-eq-ok}
use shelf_auth.Service.Login.{LoginResult, login, authenticate}
use shelf_auth.Tests.Bearer.{keys_listed, bearer_request, at_tick, alice_token, loaded_signer}
use shelf_auth.Pool.{open_pool}
use shelf_auth.Http.Auth.Account.{account_shown, IsInTime, IsShowable}
use shelf_auth.Repo.Users.{has_email}
use shelf_auth.Domain.{parse_email}
use shelf_auth.Service.Refresh.{RefreshResult, refresh}
use shelf_auth.Repo.Sessions.{by_hash}
use shelf_auth.Security.Token.{hash_sha256_hex}
use shelf_auth.Startup.Serving.{
  run_process, MainEvent, next_process, launch, keys_tick, advance, interrupted, keys_ended,
}
use shelf_auth.Startup.Serving.Access.{login_served, refresh_served}

abbrev pub k1_config : Config
k1_config = record {
  env = "dev";
  http_addr = ":8080";
  log_level = "info";
  jwt_alg = "RS256";
  jwt_iss = "i";
  jwt_aud = "a";
  access_ttl = 3000000000;
  refresh_ttl = 100;
  jwks_max_age = 0;
  keys_dir = "keys";
  signing_key_kid = "k1";
  keys_reload_interval = 60;
  active_kid_runtime = " k1 ";
  database_url = "db";
  cors_origins = [];
  cookie_secure = true;
  cookie_same_site = "Lax";
  cookie_domain = "";
}

-- The libraries, with tokens that are signed for one set of claims.
abbrev pub launch_libraries : Claims → Libraries
launch_libraries c = record {
  keys = sample_library;
  tokens = only c;
  marshal = λ alg ks. some "{}";
  pool = record {
    parse_config = λ s. ok (record {
      target = s;
      max_conns = 4;
      min_conns = 0;
      health_check_period = 0;
      max_conn_idle_time = 0;
      max_conn_lifetime = 0;
    });
    new_with_config = λ c. ok 7;
    ping = λ pool timeout. ok tt;
  };
}

abbrev pub at_start : Surroundings
at_start = record { parsed = ok k1_config; listing = keys_listed; walk = [] }

abbrev pub launched : Claims → Program
launched c = wire sample_platform (launch_libraries c) at_start k1_config 7

pub starts : (c : Claims) → start sample_platform (launch_libraries c) at_start ≡ ok (launched c)
unfolding start load open_pool trim_space
starts c = refl

start-eq-ok_example :
    IsWired sample_platform (launch_libraries alice_token) at_start (launched alice_token)
start-eq-ok_example =
    start-eq-ok sample_platform (launch_libraries alice_token) at_start (launched alice_token)
      (starts alice_token)

abbrev alice_login : LoginResult
alice_login = record {
  access_token = "t";
  access_exp = 3000001001;
  refresh_token = "AgcH";
  refresh_exp = 1104;
}

logs_in :
    (login sample_platform
      (launched alice_token).server.service
      "a@b.c"
      "abc12345"
      "web"
      ""
      ""
      sample_world).0
    ≡ ok alice_login
unfolding runs trim_space sign_access signing_key override_kid set_active_kid new_signer reload
    load_key ends_in_pem trim_extension
logs_in = refl

sent : bearer_request.header "Authorization" ≡ append "Bearer " "t"
unfolding append
sent = refl

found : find (has_email sample_platform (trim_space "a@b.c")) sample_world.db.users ≡ some alice
unfolding trim_space
found = refl

-- A tick at which the directory is not readable, a signal, and the end of the goroutine.
abbrev happened : List MainEvent
happened = keys_tick none ∷ interrupted ∷ keys_ended ∷ []

kept_key :
    (c : Claims)
    → key_with
        (launched c).signer.kid
        (run_process sample_platform
          (launch_libraries c)
          7
          happened
          (launch sample_platform (launch_libraries c) (launched c))).signer.keys
      ≡ key_with (launched c).signer.kid (launched c).signer.keys
unfolding run_process next_process advance reload
kept_key c = refl

in_time :
    IsInTime sample_platform
      (only alice_token)
      (authenticate sample_platform
        (launched alice_token).server.service
        "a@b.c"
        "abc12345"
        sample_world).1.tick
      5
      3000001001
unfolding runs authenticate trim_space
in_time = record { after = omega arith; forward = omega arith; before = omega arith; dated = refl }

alice-IsShowable : IsShowable sample_platform 1 alice (at_tick 5)
unfolding parse_email trim_space
alice-IsShowable = record {
  valid = refl;
  named = refl;
  parses = refl;
  stored = refl;
  address = refl;
  answers = refl;
}

login_served_example :
    (me_route sample_platform
      (token_verifier sample_platform
        (only alice_token)
        (run_process sample_platform
          (launch_libraries alice_token)
          7
          happened
          (launch sample_platform (launch_libraries alice_token) (launched alice_token))).signer)
      bearer_request
      (at_tick 5)).0
    ≡ account_shown alice
login_served_example =
    login_served sample_platform (launch_libraries alice_token) (only_laws alice_token) at_start
      (launched alice_token) (starts alice_token) happened (kept_key alice_token) "a@b.c" "abc12345"
      "web" "" "" sample_world (at_tick 5) alice alice_login bearer_request logs_in found in_time
      alice-IsShowable sent

-- The claims that a refresh signs at 1002.
abbrev pub next_token : Claims
next_token =
    access_token_claims loaded_signer (record { user_id = "x"; email = "" }) 1002 3000000000

abbrev next_refresh : RefreshResult
next_refresh = record {
  access_token = "t";
  access_exp = 3000001002;
  refresh_token = "AwcH";
  refresh_exp = 1101;
}

refreshes :
    (refresh sample_platform (launched next_token).server.service "tok" "web" "" "" sample_world).0
    ≡ ok next_refresh
unfolding runs trim_space sign_access signing_key override_kid set_active_kid new_signer reload
    load_key ends_in_pem trim_extension
refreshes = refl

found_session :
    by_hash (hash_sha256_hex sample_platform "tok") sample_world.db.sessions ≡ some web_session
unfolding runs
found_session = refl

refresh_served_example :
    (me_route sample_platform
      (token_verifier sample_platform
        (only next_token)
        (run_process sample_platform
          (launch_libraries next_token)
          7
          happened
          (launch sample_platform (launch_libraries next_token) (launched next_token))).signer)
      bearer_request
      (at_tick 5)).0
    ≡ account_shown alice
refresh_served_example =
    refresh_served sample_platform (launch_libraries next_token) (only_laws next_token) at_start
      (launched next_token) (starts next_token) happened (kept_key next_token) "tok" "web" "" ""
      sample_world (at_tick 5) web_session alice next_refresh bearer_request refreshes found_session
      (record { after = omega arith; forward = omega arith; before = omega arith; dated = refl })
      alice-IsShowable sent
