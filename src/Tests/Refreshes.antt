-- ===== src/Tests/Refreshes.antt =====
-- Refresh, rotation and sequences of calls.
use shelf_auth.Service.Refresh.{RefreshResult, refresh}
use shelf_auth.Service.Refresh.Rotation.{IsUsable, RotatedTo, refresh-eq-ok}
use shelf_auth.Samples.{
  runs, sample_platform, web_session, sample_service, sample_world, sample_laws,
}
use shelf_auth.Prelude.{List, ◌∷◌, length, [], ◌≡◌, ◌≢◌, true, refl, some}
use shelf_auth.Service.Calls.{Call, run, login_call, refresh_call, register_call, logout_call}
use shelf_auth.Errors.{ok, err, pg_error}
use shelf_auth.Service.Refresh.Spent.{refresh_once}
use shelf_auth.Domain.{Session}
use shelf_auth.Repo.Sessions.{rotate, by_hash}
use shelf_auth.Security.Token.{hash_sha256_hex}

abbrev web_refresh : RefreshResult
web_refresh = record {
  access_token = "token";
  access_exp = 1015;
  refresh_token = "AgcH";
  refresh_exp = 1101;
}

web_refresh_ok :
    (refresh sample_platform sample_service "tok" "web" "" "ua" sample_world).0 ≡ ok web_refresh
unfolding runs
web_refresh_ok = refl

abbrev busy_day : List Call
busy_day =
    login_call "a@b.c" "abc12345" "phone" "" "ua"
    ∷ refresh_call "tok" "web" "" "ua"
    ∷ refresh_call "tok" "web" "" "ua"
    ∷ register_call "b@b.c" "xyz98765" true
    ∷ logout_call "AgcH"
    ∷ []

refresh_once_example :
    (refresh sample_platform sample_service "tok" "web" "" "ua" (
      run sample_platform sample_service busy_day
        (refresh sample_platform sample_service "tok" "web" "" "ua" sample_world).1)).0
    ≢ ok web_refresh
refresh_once_example =
    refresh_once sample_platform sample_service sample_laws "tok" "web" "" "ua" sample_world
      web_refresh busy_day "web" "" "ua" web_refresh web_refresh_ok

count_sessions : length (run sample_platform sample_service busy_day sample_world).db.sessions ≡ 3
unfolding runs run
count_sessions = refl

refresh-eq-ok_example :
    (old : Session) × (by_hash (hash_sha256_hex sample_platform "tok") sample_world.db.sessions
      ≡ some old)
    × IsUsable old 1001
    × RotatedTo sample_platform sample_service old 1001 "web" web_refresh sample_world.db
        (refresh sample_platform sample_service "tok" "web" "" "ua" sample_world).1.db
refresh-eq-ok_example =
    refresh-eq-ok sample_platform sample_service sample_laws "web" "" "ua" "tok" sample_world
      web_refresh_ok

-- A session with another JTI, whose text is that of an identifier.
abbrev next_session : Session
next_session = record web_session { jti = "xxx"; refresh_hash = "6e" }

rotate_ok : (rotate sample_platform "j" next_session sample_world).0 ≡ ok tt
unfolding runs
rotate_ok = refl

rotate_conflict : (rotate sample_platform "j" web_session sample_world).0 ≡ err (pg_error "23505")
unfolding runs
rotate_conflict = refl
