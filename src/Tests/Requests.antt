-- ===== src/Tests/Requests.antt =====
-- Requests over HTTP.
use shelf_auth.Samples.{runs, sample_platform, sample_service, sample_world, sample_laws}
use shelf_auth.Http.Cookies.{CookieCfg, lax_mode}
use shelf_auth.Http.{Request, fail, text}
use shelf_auth.Http.Login.{LoginRequest, login_handler}
use shelf_auth.Http.Login.Laws.{IsAnswered, login_handler-ok}
use shelf_auth.Prelude.{
  String_eq, true, if◌then◌else◌, ◌==◌, some, ◌≡◌, refl, trim_space, is_empty, ◌||◌, false,
}
use shelf_auth.Http.Address.{client_ip}
use shelf_auth.Http.Login.Refusals.{login_handler_alike, IsWrong, no_account}

abbrev sample_cfg : CookieCfg
sample_cfg = record { secure = true; same_site = lax_mode; domain = "" }

abbrev pub tok_request : Request
tok_request = record {
  header = λ name. if name == "X-Device-ID" then "web" else "";
  remote_addr = "9.9.9.9";
  user_agent = "ua";
  refresh_cookie = some "tok";
}

abbrev alice_login : LoginRequest
alice_login = record { email = " a@b.c"; password = "abc12345"; device_id = "phone" }

logged_in :
    (login_handler sample_platform sample_service sample_cfg
      (some alice_login)
      tok_request
      sample_world).0.status
    ≡ 200
unfolding runs login_handler client_ip
logged_in = refl

login_handler-ok_example :
    IsAnswered sample_platform sample_service sample_cfg alice_login tok_request sample_world
login_handler-ok_example =
    login_handler-ok sample_platform sample_service sample_cfg sample_laws alice_login tok_request
      sample_world logged_in

-- No account has the address.
abbrev stranger : LoginRequest
stranger = record { email = "b@b.c"; password = "abc12345"; device_id = "phone" }

stranger_given :
    (is_empty (trim_space stranger.email)
      || is_empty stranger.password
      || is_empty (trim_space stranger.device_id))
    ≡ false
unfolding trim_space
stranger_given = refl

stranger-IsWrong :
    IsWrong sample_platform sample_service
      (trim_space stranger.email)
      stranger.password
      sample_world.db.users
unfolding trim_space
stranger-IsWrong = no_account refl

login_handler_alike_example :
    ((login_handler sample_platform sample_service sample_cfg
        (some stranger)
        tok_request
        sample_world).0
      ≡ fail 401 "INVALID_CREDENTIALS" (text "invalid credentials"))
    × ((login_handler sample_platform sample_service sample_cfg
          (some stranger)
          tok_request
          sample_world).1.db
        ≡ sample_world.db)
login_handler_alike_example =
    login_handler_alike sample_platform sample_service sample_cfg stranger tok_request sample_world
      stranger_given stranger-IsWrong refl
