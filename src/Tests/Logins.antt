-- ===== src/Tests/Logins.antt =====
-- Registration, login and logout.
use shelf_auth.Prelude.{◌≡◌, refl, true, some, ◌∷◌, [], ◌≢◌}
use shelf_auth.Samples.{
  runs, sample_platform, sample_service, sample_world, web_session, sample_laws,
}
use shelf_auth.Service.Login.{LoginResult, login}
use shelf_auth.Service.Login.Success.{IsLoggedIn, login-eq-ok}
use shelf_auth.Service.Register.{register}
use shelf_auth.Service.Logout.{logout}
use shelf_auth.Repo.Sessions.{by_hash}
use shelf_auth.Domain.{non_empty}
use shelf_auth.Service.Refresh.{RefreshResult, refresh}
use shelf_auth.Security.Token.{hash_sha256_hex}
use shelf_auth.Errors.{ok, err, sentinel, email_already_taken}
use shelf_auth.Service.Calls.{run, login_call, step, register_call}
use shelf_auth.Service.Logout.Ends.{logout_ends}
use shelf_auth.Service.Calls.Failures.{failure_of, step-eq-err, tells_reuse}

abbrev phone_login : LoginResult
phone_login = record {
  access_token = "token";
  access_exp = 1015;
  refresh_token = "AQcH";
  refresh_exp = 1103;
}

phone_login_ok :
    (login sample_platform sample_service "a@b.c" "abc12345" "phone" "" "ua" sample_world).0
    ≡ ok phone_login
unfolding runs
phone_login_ok = refl

login-eq-ok_example :
    IsLoggedIn sample_platform sample_service "a@b.c" "abc12345" "phone" phone_login sample_world.db
      (login sample_platform sample_service "a@b.c" "abc12345" "phone" "" "ua" sample_world).1.db
login-eq-ok_example =
    login-eq-ok sample_platform sample_service sample_laws "phone" "" "ua" "a@b.c" "abc12345"
      sample_world phone_login phone_login_ok

taken :
    (register sample_platform sample_service "a@b.c" "xyz98765" true sample_world).0
    ≡ err (sentinel email_already_taken)
unfolding runs
taken = refl

step-eq-err_example :
    (step sample_platform sample_service (register_call "a@b.c" "xyz98765" true) sample_world).db
    ≡ sample_world.db
unfolding failure_of tells_reuse
step-eq-err_example =
    step-eq-err sample_platform sample_service sample_laws (register_call "a@b.c" "xyz98765" true)
      sample_world (sentinel email_already_taken) (rw taken refl) refl

found_tok :
    by_hash (hash_sha256_hex sample_platform "tok") sample_world.db.sessions ≡ some web_session
unfolding runs
found_tok = refl

given_tok : non_empty "tok" ≡ true
unfolding runs
given_tok = refl

abbrev phone_refresh : RefreshResult
phone_refresh = record {
  access_token = "token";
  access_exp = 1015;
  refresh_token = "AQcH";
  refresh_exp = 1103;
}

logout_ends_example :
    (refresh sample_platform sample_service "tok" "web" "" "ua" (
      run sample_platform sample_service
        (login_call "a@b.c" "abc12345" "phone" "" "ua" ∷ [])
        (logout sample_platform "tok" sample_world).1)).0
    ≢ ok phone_refresh
logout_ends_example =
    logout_ends sample_platform "tok" sample_world web_session sample_service sample_laws
      (login_call "a@b.c" "abc12345" "phone" "" "ua" ∷ []) "web" "" "ua" phone_refresh given_tok
      found_tok refl
