-- ===== src/Tests/Interleavings.antt =====
-- Calls that interleave.
use shelf_auth.Prelude.{
  refl, some, String_eq, ℕ_eq, ◌≡◌, ◌≢◌, ◌∷◌, [], List, ◌++◌, trim_space, true,
}
use shelf_auth.Samples.{
  runs, sample_platform, web_session, sample_service, sample_world, sample_laws, alice,
}
use shelf_auth.Domain.{Session, User}
use shelf_auth.Errors.{ok}
use shelf_auth.Service.Refresh.{refresh_found}
use shelf_auth.Service.Interleaving.{
  finish, begin, System, with_task, refreshing, later, here, comes_in, goes_on, issuing,
}
use shelf_auth.Service.Calls.{Call, refresh_call, login_call}
use shelf_auth.Repo.History.{Evolves}
use shelf_auth.Service.Interleaving.Once.{refresh_once_interleaved}
use shelf_auth.Service.Interleaving.Safety.{Reach-Evolves}
use shelf_auth.Exec.{UserRow}
use shelf_auth.Service.Calls.Soundness.{IsSound}
use shelf_auth.Service.Interleaving.Sound.{Reach-IsSound}
use shelf_auth.Tests.Secrets.{sample_bcrypt}

abbrev quiet : System
quiet = record { world = sample_world; tasks = [] }

abbrev tok_call : Call
tok_call = refresh_call "tok" "web" "" "ua"

abbrev one_under_way : System
one_under_way = record {
  world = (begin sample_platform sample_service tok_call sample_world).1;
  tasks = with_task (begin sample_platform sample_service tok_call sample_world).0 [];
}

under_way : one_under_way.tasks ≡ refreshing web_session 1001 "web" "" "ua" ∷ []
unfolding runs begin
under_way = refl

exchanged_ok :
    (refresh_found sample_platform sample_service web_session 1001 "web" "" "ua"
      one_under_way.world).0
    ≡ ok (record {
      access_token = "token";
      access_exp = 1015;
      refresh_token = "AgcH";
      refresh_exp = 1101;
    })
unfolding runs begin
exchanged_ok = refl

abbrev exchanged : System
exchanged = record {
  world =
      finish sample_platform sample_service (refreshing web_session 1001 "web" "" "ua")
        one_under_way.world;
  tasks = [];
}

abbrev again_under_way : System
again_under_way = record {
  world = (begin sample_platform sample_service tok_call exchanged.world).1;
  tasks = with_task (begin sample_platform sample_service tok_call exchanged.world).0 [];
}

abbrev spent_web : Session
spent_web = record web_session { replaced_by = some 8 }

again : again_under_way.tasks ≡ refreshing spent_web 1010 "web" "" "ua" ∷ []
unfolding runs begin finish
again = refl

refresh_once_interleaved_example :
    (refresh_found sample_platform sample_service spent_web 1010 "web" "" "ua"
      again_under_way.world).0
    ≢ ok (record {
      access_token = "token";
      access_exp = 1015;
      refresh_token = "AgcH";
      refresh_exp = 1101;
    })
refresh_once_interleaved_example =
    refresh_once_interleaved sample_platform sample_service sample_laws quiet one_under_way
      again_under_way web_session spent_web 1001 1010 [] [] [] [] "web" "" "ua" "web" "" "ua"
      (record {
        access_token = "token";
        access_exp = 1015;
        refresh_token = "AgcH";
        refresh_exp = 1101;
      })
      (record {
        access_token = "token";
        access_exp = 1015;
        refresh_token = "AgcH";
        refresh_exp = 1101;
      })
      refl (later here (comes_in tok_call)) under_way exchanged_ok tt
      (later here (comes_in tok_call)) again refl

Reach-Evolves_example :
    ((more : List UserRow) × (again_under_way.world.db.users ≡ sample_world.db.users ++ more))
    × Evolves (web_session ∷ []) again_under_way.world.db.sessions
Reach-Evolves_example =
    Reach-Evolves sample_platform sample_service sample_laws {y = quiet} {z = again_under_way} (
      later
        (later (later here (comes_in tok_call))
          (goes_on [] (refreshing web_session 1001 "web" "" "ua") [] under_way))
        (comes_in tok_call))

-- A session that ends the refresh TTL of 100 after its start.
abbrev sound_session : Session
sound_session = record web_session { created_at = 1900 }

abbrev calm : System
calm = record {
  world = record sample_world { db = record sample_world.db { sessions = sound_session ∷ [] } };
  tasks = [];
}

abbrev phone_login : Call
phone_login = login_call "a@b.c" "abc12345" "phone" "" "ua"

abbrev refresh_started : System
refresh_started = record {
  world = (begin sample_platform sample_service tok_call calm.world).1;
  tasks = with_task (begin sample_platform sample_service tok_call calm.world).0 [];
}

-- A refresh and a login are under way at the same time.
abbrev login_started : System
login_started = record {
  world = (begin sample_platform sample_service phone_login refresh_started.world).1;
  tasks =
      with_task (begin sample_platform sample_service phone_login refresh_started.world).0
        refresh_started.tasks;
}

abbrev alice_user : User
alice_user = record {
  id = 1;
  email = record { value = "a@b.c" };
  password_hash = alice.password_hash;
  email_verified = true;
  created_at = 10;
  updated_at = 10;
}

both_under_way :
    login_started.tasks
    ≡ issuing alice_user "phone" "" "ua" ∷ refreshing sound_session 1001 "web" "" "ua" ∷ []
unfolding runs begin
both_under_way = refl

abbrev refresh_ended : System
refresh_ended = record {
  world =
      finish sample_platform sample_service (refreshing sound_session 1001 "web" "" "ua")
        login_started.world;
  tasks = issuing alice_user "phone" "" "ua" ∷ [];
}

abbrev both_ended : System
both_ended = record {
  world =
      finish sample_platform sample_service (issuing alice_user "phone" "" "ua")
        refresh_ended.world;
  tasks = [];
}

calm-IsSound : IsSound sample_platform 100 calm.world.db
unfolding runs trim_space
calm-IsSound = record { accounts = ((refl, refl), tt); sessions = ((refl, refl), tt) }

-- The refresh goes on before the login, which came later.
Reach-IsSound_example : IsSound sample_platform 100 both_ended.world.db
Reach-IsSound_example =
    Reach-IsSound sample_platform sample_service sample_laws sample_bcrypt calm both_ended refl
      (later
        (later (later (later here (comes_in tok_call)) (comes_in phone_login)) (
          goes_on (issuing alice_user "phone" "" "ua" ∷ [])
            (refreshing sound_session 1001 "web" "" "ua") [] both_under_way))
        (goes_on [] (issuing alice_user "phone" "" "ua") [] refl))
      calm-IsSound
