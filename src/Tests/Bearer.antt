-- ===== src/Tests/Bearer.antt =====
-- Access tokens, the middleware and the routes.
use shelf_auth.Keys.Tokens.{access_token_claims, sign_access, verify_access, token_verifier}
use shelf_auth.Http.{no_body, Request, Handler}
use shelf_auth.Http.Cookies.{lax_mode}
use shelf_auth.Http.Routes.{get_method, me_page, Server, Visit, serve_route, route}
use shelf_auth.Tests.Directories.{sample_library, key_file, key_set, notes_file}
use shelf_auth.Exec.{◌>>=◌, World}
use shelf_auth.Prelude.{
  none, some, ◌∷◌, [], String_eq, ℕ_eq, refl, inl, inr, Option, ◌≡◌, true, arith, ◌+◌, List, ℕ, ◌⊎◌,
}
use shelf_auth.Keys.Tokens.{Claims, TokenLibrary}
use shelf_auth.Platform.{EntityId}
use shelf_auth.Tokens.{AccessClaims, TokenVerifier}
use shelf_auth.Keys.Signing.{Signer, new_signer, signing_key, reload}
use shelf_auth.Keys.Tokens.Accepted.{verify_access-keeps_db}
use shelf_auth.Http.Auth.{auth_middleware}
use shelf_auth.Keys.{Entry, load_key, ends_in_pem, trim_extension}
use shelf_auth.Samples.{sample_platform, sample_service, sample_world}
use shelf_auth.Errors.{ok}
use shelf_auth.Keys.Tokens.RoundTrip.{verify_access-sign_access}
use shelf_auth.Http.Routes.Safe.{safe_route}
use shelf_auth.Http.Auth.Laws.{IsAdmitted, auth_middleware-cases}
use shelf_auth.Tests.OneToken.{only, only_laws}

abbrev pub bearer_claims : AccessClaims
bearer_claims = record { user_id = "x"; email = "a@b.c" }

abbrev pub keys_listed : Option (List Entry)
keys_listed = some (key_file ∷ notes_file ∷ [])

abbrev pub loaded_signer : Signer
loaded_signer = new_signer sample_library "keys" "k1" "RS256" 3000000000 "i" "a" keys_listed

-- The claims of a token that is signed at 1001.
abbrev pub alice_token : Claims
alice_token = access_token_claims loaded_signer bearer_claims 1001 3000000000

abbrev pub alice_only : TokenLibrary
alice_only = only alice_token

abbrev pub at_tick : ℕ → World
at_tick n = record sample_world { tick = n }

signed_t :
    (sign_access sample_platform alice_only loaded_signer bearer_claims 3000000000 (at_tick 1)).0
    ≡ ok ("t", 3000001001)
unfolding sign_access signing_key new_signer reload load_key ends_in_pem trim_extension ◌>>=◌
signed_t = refl

verify_access-sign_access_example :
    ((verify_access sample_platform alice_only loaded_signer "t" (at_tick 2)).0 ≡ ok bearer_claims)
    × (3000001001 ≡ 1001 + 3000000000)
unfolding new_signer reload
verify_access-sign_access_example =
    verify_access-sign_access sample_platform alice_only (only_laws alice_token) loaded_signer
      loaded_signer bearer_claims 3000000000 (at_tick 1) (at_tick 2) "t" 3000001001 refl refl
      signed_t refl refl refl (omega arith) (omega arith) (omega arith) (omega arith) refl

abbrev pub bearer_request : Request
bearer_request = record {
  header = λ name. "Bearer t";
  remote_addr = "";
  user_agent = "";
  refresh_cookie = none;
}

abbrev teapot : EntityId → Handler
teapot id w = (record { status = 418; body = no_body; cookie = none }, w)

abbrev pub alice_verifier : TokenVerifier
alice_verifier = token_verifier sample_platform alice_only loaded_signer

auth_middleware-cases_example :
    (((auth_middleware sample_platform alice_verifier teapot bearer_request (at_tick 2)).0.status
        ≡ 401)
      × ((auth_middleware sample_platform alice_verifier teapot bearer_request (at_tick 2)).1.db
          ≡ sample_world.db))
    ⊎ IsAdmitted sample_platform alice_verifier teapot bearer_request (at_tick 2)
auth_middleware-cases_example =
    auth_middleware-cases sample_platform alice_verifier teapot bearer_request (at_tick 2)
      (λ t. verify_access-keeps_db sample_platform alice_only loaded_signer t (at_tick 2))

abbrev web_server : Server
web_server = record {
  service = sample_service;
  verifier = alice_verifier;
  key_set = key_set;
  cookies = record { secure = true; same_site = lax_mode; domain = "" };
  cors_origins = [];
}

abbrev bearer_visit : Visit
bearer_visit = record { request = bearer_request; registration = none; credentials = none }

safe_route_example :
    (serve_route sample_platform web_server
      (route get_method "/me" me_page)
      bearer_visit
      (at_tick 2)).1.1.db
    ≡ sample_world.db
safe_route_example =
    safe_route sample_platform web_server
      (verify_access-keeps_db sample_platform alice_only loaded_signer)
      (route get_method "/me" me_page)
      (inr (inr (inr (inr (inr (inr (inr (inr (inr (inr (inl refl))))))))))) refl bearer_visit
      (at_tick 2)
