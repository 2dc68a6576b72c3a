-- ===== src/Tests/Sessions.antt =====
-- The domain types.
use shelf_auth.Prelude.{
  ◌≡◌, refl, true, false, none, ◌⊎◌, trim_space, is_empty, ◌||◌, not, any, ◌==◌, codes, ℕ_eq,
}
use shelf_auth.Samples.{runs, sample_platform}
use shelf_auth.Domain.{Session, new_session, is_active, Email, revoke, parse_email, is_zero_email}
use shelf_auth.Errors.{ok, err, sentinel, invalid_email}
use shelf_auth.Domain.Lifecycle.{session_life}
use shelf_auth.Domain.Emails.{parse_email_normalizes}

abbrev made_session : Session
made_session = record {
  id = 0;
  user_id = 1;
  device_id = "web";
  jti = "j";
  refresh_hash = "h";
  ip = none;
  user_agent = "ua";
  created_at = 20;
  expires_at = 120;
  replaced_by = none;
  revoked_at = none;
}

new_session_ok : new_session sample_platform 1 "web" "j" "h" "" "ua" 100 20 ≡ ok made_session
unfolding runs
new_session_ok = refl

session_life_example :
    (made_session.created_at ≡ 20)
    × (made_session.expires_at ≡ 120)
    × (is_active made_session 119 ≡ true)
    × (is_active (revoke made_session 50) 119 ≡ false)
    × (revoke (revoke made_session 50) 70 ≡ revoke made_session 50)
session_life_example =
    session_life sample_platform 1 "web" "j" "h" "" "ua" 100 20 119 50 70 made_session
      new_session_ok

parse_email_normalizes_example :
    ((e : Email) × (parse_email sample_platform " a@b.c " ≡ ok e)
      × (e.value ≡ trim_space " a@b.c ")
      × (is_zero_email e ≡ false)
      × (sample_platform.is_address e.value ≡ true)
      × (parse_email sample_platform e.value ≡ ok e))
    ⊎ ((parse_email sample_platform " a@b.c " ≡ err (sentinel invalid_email))
        × ((is_empty (trim_space " a@b.c ")
              || not (any (λ c. c == b'@') (codes (trim_space " a@b.c "))))
            ≡ true))
parse_email_normalizes_example = parse_email_normalizes sample_platform " a@b.c "
