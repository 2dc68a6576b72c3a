-- ===== src/Tests/Replays.antt =====
-- A rotated token that is presented again.
use shelf_auth.Prelude.{
  ◌≡◌, refl, true, false, arith, none, some, All, not, ◌||◌, is_some, suc, map,
}
use shelf_auth.Service.Refresh.Reuse.{IsReplay, is_on, replay_misses_other_device, ended_at}
use shelf_auth.Samples.{
  runs, sample_platform, web_session, sample_service, sample_world, sample_laws,
}
use shelf_auth.Service.Refresh.{RefreshResult, refresh, refresh_found, rotate_session}
use shelf_auth.Exec.{World}
use shelf_auth.Domain.{Session, is_active}
use shelf_auth.Errors.{err, ok, sentinel, reused_refresh, expired_refresh}
use shelf_auth.Service.Refresh.Reuse.{reuse_revokes}
use shelf_auth.Repo.Sessions.{by_hash}
use shelf_auth.Security.Token.{hash_sha256_hex}
use shelf_auth.Service.Refresh.Expiry.{refresh_at_end}

-- "tok" exchanged on the device "phone".
abbrev phone_result : RefreshResult
phone_result = record {
  access_token = "token";
  access_exp = 1015;
  refresh_token = "AgcH";
  refresh_exp = 1101;
}

abbrev moved : World
moved = (refresh sample_platform sample_service "tok" "phone" "" "ua" sample_world).1

moved_ok :
    (refresh sample_platform sample_service "tok" "phone" "" "ua" sample_world).0 ≡ ok phone_result
unfolding runs
moved_ok = refl

abbrev rotated_session : Session
rotated_session = record web_session { replaced_by = some 8 }

moved-IsReplay : IsReplay sample_platform sample_service "tok" "web" "" "ua" moved rotated_session
unfolding runs
moved-IsReplay = record {
  given = refl;
  found = refl;
  unrevoked = refl;
  in_time = omega arith;
  replaced = refl;
  answers = refl;
  answers_again = refl;
}

abbrev replayed : World
replayed = (refresh sample_platform sample_service "tok" "web" "" "ua" moved).1

reuse_revokes_example :
    ((refresh sample_platform sample_service "tok" "web" "" "ua" moved).0
      ≡ err (sentinel reused_refresh))
    × All (λ t. (not (is_on 1 "web" t) || is_some t.revoked_at) ≡ true) replayed.db.sessions
    × (replayed.db ≡ record moved.db {
      sessions = map (ended_at 1 "web" (sample_platform.clock (suc moved.tick))) moved.db.sessions;
    })
reuse_revokes_example =
    reuse_revokes sample_platform sample_service "tok" "web" "" "ua" moved rotated_session
      moved-IsReplay

web_found :
    by_hash (hash_sha256_hex sample_platform "tok") sample_world.db.sessions ≡ some web_session
unfolding runs
web_found = refl

new_token_unused : by_hash (hash_sha256_hex sample_platform "AgcH") sample_world.db.sessions ≡ none
unfolding runs
new_token_unused = refl

replay_misses_other_device_example :
    ((refresh sample_platform sample_service "tok" "web" "" "ua" moved).0
      ≡ err (sentinel reused_refresh))
    × ((t : Session) × (by_hash (hash_sha256_hex sample_platform "AgcH") replayed.db.sessions
          ≡ some t)
        × (t.revoked_at ≡ none))
replay_misses_other_device_example =
    replay_misses_other_device sample_platform sample_service sample_laws "tok" "phone" "" "ua"
      sample_world phone_result web_session rotated_session "web" "" "ua" moved_ok web_found refl
      new_token_unused moved-IsReplay

refresh_at_end_example :
    (is_active web_session 2000 ≡ false)
    × (refresh_found sample_platform sample_service web_session 2000 "web" "" "ua" sample_world
        ≡ rotate_session sample_platform sample_service web_session 2000 "web" "" "ua" sample_world)
    × (refresh_found sample_platform sample_service web_session 2008 "web" "" "ua" sample_world
        ≡ (err (sentinel expired_refresh), sample_world))
refresh_at_end_example =
    refresh_at_end sample_platform sample_service web_session 7 "web" "" "ua" sample_world refl refl
