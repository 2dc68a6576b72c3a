-- ===== src/Tests/Races.antt =====
-- Refreshes that work, where everything that the program calls works, and two that race.
use shelf_auth.Prelude.{
  refl, some, inl, inr, String_eq, ℕ_eq, ℕ, String, ◌≡◌, ◌≢◌, true, arith, suc, ◌==◌, ap, ◌+◌, zero,
  false, Bool-cases, text_eq_iff, ◌∙◌, none, ◌∷◌, [],
}
use shelf_auth.Samples.{
  runs, count_strokes, sample_platform, web_session, strokes, sample_service, sample_world,
  sample_laws,
}
use shelf_auth.Service.Refresh.Works.{Works, IsReady, refresh_works}
use shelf_auth.Domain.{non_empty, parse_ip, Session}
use shelf_auth.Repo.Sessions.{by_hash}
use shelf_auth.Service.Refresh.Rotation.{IsUsable}
use shelf_auth.Errors.{is_ok, ok}
use shelf_auth.Service.Refresh.{RefreshResult, refresh, refresh_found}
use shelf_auth.Security.Token.{hash_sha256_hex}
use shelf_auth.Exec.{World}
use shelf_auth.Service.Interleaving.{finish, begin, refreshing}
use shelf_auth.Service.Interleaving.Race.{first_done, both_refreshes_succeed}
use shelf_auth.Service.Calls.{refresh_call}

pub count-strokes : (n : ℕ) → count_strokes (strokes n) ≡ n
count-strokes zero = refl
count-strokes (suc n) = omega (arith, count-strokes n)

other_text : (t : String) (n : ℕ) → count_strokes t ≢ n → (t == strokes n) ≡ false
other_text t n other = elim (Bool-cases (t == strokes n)) [
  | inr differs ↦ differs
  | inl same ↦
      absurd (other (ap count_strokes ((text_eq_iff t (strokes n)).0 same) ∙ count-strokes n))
]

sample_platform-Works : Works sample_platform sample_service
sample_platform-Works = record {
  answers = λ n. refl;
  draws = λ n size. refl;
  parses = λ id. ap some (count-strokes id);
  signs = λ c ttl w. refl;
  ahead = λ c ttl w. omega arith;
}

web_given : non_empty "tok" ≡ true
unfolding runs
web_given = refl

found_web :
    by_hash (hash_sha256_hex sample_platform "tok") sample_world.db.sessions ≡ some web_session
unfolding runs
found_web = refl

web_session-IsUsable : IsUsable web_session 1001
web_session-IsUsable = record { unrevoked = refl; in_time = omega arith; unreplaced = refl }

web_session-IsUsable_later : IsUsable web_session 1003
web_session-IsUsable_later = record { unrevoked = refl; in_time = omega arith; unreplaced = refl }

no_address : is_ok (parse_ip sample_platform "") ≡ true
unfolding runs
no_address = refl

sample_world-IsReady : (tick : ℕ) → IsReady sample_platform 1 (record sample_world { tick = tick })
sample_world-IsReady tick = record {
  new_ids = λ n h. ground arith;
  new_texts = λ n h. ground (arith, other_text "j" (5 + n) (λ e. omega (arith, e)));
  known = refl;
}

refresh_works_example :
    (r : RefreshResult) × ((refresh sample_platform sample_service "tok" "web" "" "ua"
        sample_world).0
      ≡ ok r)
refresh_works_example =
    refresh_works sample_platform sample_service sample_platform-Works sample_laws "tok" web_session
      "web" "" "ua" sample_world web_given found_web web_session-IsUsable no_address
      (sample_world-IsReady 0)

abbrev after_first : World
after_first = first_done sample_platform sample_service web_session "web" "" "ua" sample_world

-- The row that the first refresh added.
abbrev first_row : Session
first_row = record {
  id = 12;
  user_id = 1;
  device_id = "web";
  jti = "xxxxxxxxxx";
  refresh_hash = "42416348";
  ip = none;
  user_agent = "ua";
  created_at = 1001;
  expires_at = 1101;
  replaced_by = none;
  revoked_at = none;
}

abbrev rotated_web : Session
rotated_web = record web_session { replaced_by = some 10 }

after_first_lem :
    after_first
    ≡ record { db = record sample_world.db { sessions = rotated_web ∷ first_row ∷ [] }; tick = 11 }
unfolding runs finish
after_first_lem = refl

first_done-IsReady :
    IsReady sample_platform 1 (record {
      db = record sample_world.db { sessions = rotated_web ∷ first_row ∷ [] };
      tick = 11;
    })
first_done-IsReady = record {
  new_ids = λ n h. ground arith;
  new_texts = λ n h. ground (
    arith,
    other_text "j" (5 + n) (λ e. omega (arith, e)),
    other_text "xxxxxxxxxx" (5 + n) (λ e. omega (arith, e)),
  );
  known = refl;
}

both_refreshes_succeed_example :
    (begin sample_platform sample_service (refresh_call "tok" "web" "" "ua") sample_world
      ≡ (some (refreshing web_session 1001 "web" "" "ua"), record sample_world { tick = 2 }))
    × (begin sample_platform sample_service
          (refresh_call "tok" "phone" "" "ua")
          (record sample_world { tick = 2 })
        ≡ (some (refreshing web_session 1003 "phone" "" "ua"), record sample_world { tick = 4 }))
    × ((r : RefreshResult) × ((refresh_found sample_platform sample_service web_session 1001 "web"
            "" "ua"
            (record sample_world { tick = 4 })).0
          ≡ ok r))
    × ((r : RefreshResult) × ((refresh_found sample_platform sample_service web_session 1003 "phone"
            "" "ua" after_first).0
          ≡ ok r))
both_refreshes_succeed_example =
    both_refreshes_succeed sample_platform sample_service sample_platform-Works sample_laws "tok"
      "web" "" "ua" "phone" "" "ua" web_session sample_world web_given found_web
      web_session-IsUsable web_session-IsUsable_later no_address no_address (sample_world-IsReady 4)
      (rw after_first_lem first_done-IsReady)
