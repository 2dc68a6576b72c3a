-- ===== src/Tests/Accounts.antt =====
-- Registrations, and logins with what was registered.
use shelf_auth.Samples.{
  runs, sample_platform, sample_service, sample_world, alice, web_session, sample_laws,
}
use shelf_auth.Tests.Secrets.{sample_bcrypt}
use shelf_auth.Service.Register.{RegisterResult, register}
use shelf_auth.Service.Register.Success.{IsRegistered, register-eq-ok}
use shelf_auth.Prelude.{some, ◌∷◌, [], String_eq, ℕ_eq, true, ◌≡◌, refl, ℕ, ap, String, arith, sym}
use shelf_auth.Errors.{ok, is_ok, ok-injective}
use shelf_auth.Platform.{Platform}
use shelf_auth.Security.Password.Hashing.{BcryptLaws}
use shelf_auth.Service.Refresh.Works.{Works}
use shelf_auth.Exec.{UserRow, World}
use shelf_auth.Domain.{non_empty, parse_ip}
use shelf_auth.Service.Login.Works.{IsFresh}
use shelf_auth.Service.Login.{LoginResult, login}
use shelf_auth.Security.Token.{hash_sha256_hex, generate_opaque_token}
use shelf_auth.Tests.Races.{count-strokes}
use shelf_auth.Service.Register.Access.{registered_logs_in}

abbrev bob : RegisterResult
bob = record { id = 7; email = "b@b.c" }

bob_ok : (register sample_platform sample_service " b@b.c" "xyz98765" true sample_world).0 ≡ ok bob
unfolding runs
bob_ok = refl

register-eq-ok_example :
    IsRegistered sample_platform sample_service " b@b.c" "xyz98765" true bob sample_world.db
      (register sample_platform sample_service " b@b.c" "xyz98765" true sample_world).1.db
register-eq-ok_example =
    register-eq-ok sample_platform sample_service sample_bcrypt " b@b.c" "xyz98765" true
      sample_world bob bob_ok

-- A platform whose random bytes are always the same.
abbrev steady : Platform
steady = record sample_platform { entropy = λ call n. some (7 ∷ 7 ∷ 7 ∷ []) }

steady_bcrypt : BcryptLaws steady
steady_bcrypt = record { matches = sample_bcrypt.matches; not_blank = sample_bcrypt.not_blank }

steady-Works : Works steady sample_service
steady-Works = record {
  answers = λ n. refl;
  draws = λ n size. refl;
  parses = λ id. ap some (count-strokes id);
  signs = λ c ttl w. refl;
  ahead = λ c ttl w. omega arith;
}

registered_bob : (register steady sample_service " b@b.c" "xyz98765" true sample_world).0 ≡ ok bob
unfolding runs
registered_bob = refl

abbrev bob_row : UserRow
bob_row = record {
  id = 7;
  email = "b@b.c";
  password_hash = "$78797a3938373635";
  email_verified = true;
  created_at = 1001;
  updated_at = 1001;
}

abbrev with_bob : World
with_bob = record {
  db = record { users = alice ∷ bob_row ∷ []; sessions = web_session ∷ [] };
  tick = 4;
}

with_bob_lem : (register steady sample_service " b@b.c" "xyz98765" true sample_world).1 ≡ with_bob
unfolding runs
with_bob_lem = refl

drawn : (size n : ℕ) (raw : String) → generate_opaque_token steady size n ≡ ok raw → raw ≡ "BwcH"
unfolding runs
drawn size n raw h = sym (ok-injective h)

hash_given : non_empty (hash_sha256_hex steady "BwcH") ≡ true
unfolding runs
hash_given = refl

jti_given : non_empty "BwcH" ≡ true
unfolding runs
jti_given = refl

with_bob-IsFresh : IsFresh steady with_bob
with_bob-IsFresh = record {
  new_ids = λ n h. ground arith;
  new_jtis = λ n jti h made. rw (drawn 16 n jti made) (refl, jti_given);
  hashes = λ n raw made. rw (drawn 32 n raw made) hash_given;
}

phone_given : non_empty "phone" ≡ true
unfolding runs
phone_given = refl

no_ip : is_ok (parse_ip steady "") ≡ true
unfolding runs
no_ip = refl

registered_logs_in_example :
    (res : LoginResult) × ((login steady sample_service " b@b.c" "xyz98765" "phone" "" "ua"
        (register steady sample_service " b@b.c" "xyz98765" true sample_world).1).0
      ≡ ok res)
registered_logs_in_example =
    registered_logs_in steady sample_service steady_bcrypt sample_laws steady-Works " b@b.c"
      "xyz98765" "phone" "" "ua" sample_world bob registered_bob (rw with_bob_lem with_bob-IsFresh)
      refl phone_given no_ip
