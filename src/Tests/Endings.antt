-- ===== src/Tests/Endings.antt =====
-- A process from its start to its end.
use shelf_auth.Prelude.{
  none, some, ◌∷◌, [], String_eq, ℕ_eq, refl, ◌≡◌, Elem, trim_space, codes, List,
}
use shelf_auth.Errors.{Result, err, failure, ok}
use shelf_auth.Startup.Serving.{
  main, keys_tick, interrupted, set_tick, keys_ended, http_server, shutdown_returned, MainEvent,
  left_open,
}
use shelf_auth.Samples.{sample_platform, runs, alice, sample_world, sample_service}
use shelf_auth.Tests.Launch.{launch_libraries, at_start, k1_config, launched, starts}
use shelf_auth.Tests.Bearer.{alice_token}
use shelf_auth.Startup.Serving.Stages.{stopping}
use shelf_auth.Startup.Serving.Ends.{main_ends, course}
use shelf_auth.Hashpw.{hashpw}
use shelf_auth.Hashpw.Accepted.{HasHash, hashpw_authenticates}
use shelf_auth.Security.Password.{pre_kdf, default_bcrypt_cost}
use shelf_auth.Domain.{User}
use shelf_auth.Service.Login.{authenticate}
use shelf_auth.Tests.Secrets.{sample_bcrypt}
use shelf_auth.Pool.{open_pool}

-- Shutdown runs out of time; one more signal comes, and the keys are read once more.
abbrev long_day : List MainEvent
long_day =
    stopping (keys_tick none ∷ []) interrupted (interrupted ∷ []) (set_tick [] ∷ [])
      (err (failure "deadline")) (keys_ended ∷ [])

main_ends_example :
    (last : Result (Unit {0})) × Elem (shutdown_returned last) long_day
    × (main sample_platform (launch_libraries alice_token) at_start long_day
        ≡ some (0, course (http_server k1_config) 7 last))
    × (left_open
          (course (http_server k1_config) 7 last)
          (open_pool (launch_libraries alice_token).pool "db").1
        ≡ [])
main_ends_example =
    main_ends sample_platform (launch_libraries alice_token) at_start (launched alice_token)
      interrupted (err (failure "deadline")) (keys_tick none ∷ []) (interrupted ∷ [])
      (set_tick [] ∷ []) (keys_ended ∷ []) (starts alice_token) refl

alice-HasHash : HasHash sample_platform "a@b.c" alice.password_hash sample_world.db.users alice
unfolding trim_space
alice-HasHash = record {
  given = refl;
  address = refl;
  listed = refl;
  email = refl;
  verified = refl;
  held = refl;
}

alice_hash :
    sample_platform.bcrypt_generate 3 (pre_kdf sample_platform "abc12345" []) default_bcrypt_cost
    ≡ some alice.password_hash
unfolding runs
alice_hash = refl

hashpw_authenticates_example :
    (hashpw sample_platform codes "abc12345" "" 3
      ≡ record { status = 0; printed = some alice.password_hash })
    × (u : User) × ((authenticate sample_platform sample_service "a@b.c" "abc12345" sample_world).0
        ≡ ok u)
    × (u.id ≡ alice.id)
hashpw_authenticates_example =
    hashpw_authenticates sample_platform codes sample_service sample_bcrypt "abc12345"
      alice.password_hash 3 "a@b.c" sample_world alice refl refl alice_hash alice-HasHash refl
