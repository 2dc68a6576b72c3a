-- ===== src/Samples.antt =====
-- A concrete platform, signer and world, for tests and for instances of the theorems. Hashes keep
-- their input, times and identifiers count the calls, and the database always answers.
use shelf_auth.Prelude.{
  ℕ, String, suc, leb, any, true, none, ◌∷◌, zero, ◌&&◌, ◌==◌, ◌+◌, ◌≡◌, [], ◌||◌, codes, refl,
  ℕ_eq, some, ◌++◌, String_eq,
}
use shelf_auth.Platform.{RuneClasses, Platform, Duration}
use shelf_auth.Repo.Users
use shelf_auth.Repo.Sessions
use shelf_auth.Tokens.{TokenSigner, AccessClaims, SignerLaws}
use shelf_auth.Service.Config.{AuthService}
use shelf_auth.Exec.{◌>>=◌, UserRow, World, statement}
use shelf_auth.Domain.{Session, new_session, new_user, parse_email, parse_ip, non_empty}
use shelf_auth.Repo.History.{IsWellFormed}
use shelf_auth.Errors.{ok}
use shelf_auth.Security.Password.{
  default_options, hash_password, check_password, pre_kdf, validate_password, see,
}
use shelf_auth.Service.Register.{register}
use shelf_auth.Service.Login.{login}
use shelf_auth.Service.Refresh.{refresh, refresh_found, reject_reuse, rotate_session}
use shelf_auth.Service.Logout.{logout}
use shelf_auth.Service.Me.{me}
use shelf_auth.Repo.Users.{find_by_email, find_by_id}
use shelf_auth.Repo.Sessions.{
  create, find_by_hash, rotate, link, update_rows, revoke_all_by_user_and_device, revoke_by_hash,
}
use shelf_auth.Security.Token.{generate_opaque_token, hash_sha256_hex}
use shelf_auth.Security.Encoding.{hex_encode, url_encode, hex_digit, url_digit}

abbrev pub strokes : ℕ → String
strokes zero = ""
strokes (suc n) = String.◌∷◌ "x" (strokes n)

abbrev pub count_strokes : String → ℕ
count_strokes String.[] = 0
count_strokes (String.◌∷◌ c s) = suc (count_strokes s)

abbrev pub ascii_runes : RuneClasses
ascii_runes = record {
  is_lower = λ r. leb b'a' r && leb r b'z';
  is_upper = λ r. leb b'A' r && leb r b'Z';
  is_digit = λ r. leb b'0' r && leb r b'9';
  is_punct = λ r. r == b'!' || r == b'-' || r == b'_';
  is_symbol = λ r. r == b'+' || r == b'$';
}

abbrev pub sample_platform : Platform
sample_platform = record {
  runes = ascii_runes;
  is_address = λ s. any (λ c. c == b'@') (codes s);
  parse_net_ip = λ s. some (codes s);
  split_host_port = λ s. some s;
  parse_uuid = λ s. some (count_strokes s);
  uuid_text = strokes;
  sha256 = codes;
  hmac_sha256 = λ key s. key ++ codes s;
  bcrypt_generate = λ salt pre cost. some (String.◌∷◌ "$" pre);
  bcrypt_matches = λ hash pre. hash == String.◌∷◌ "$" pre;
  citext = λ s. s;
  clock = λ call. 1000 + call;
  entropy = λ call n. some (call ∷ 7 ∷ 7 ∷ []);
  fresh_id = λ call. 5 + call;
  fault = λ call. none;
}

abbrev pub sample_signer : TokenSigner
sample_signer = record { sign_access = λ c ttl w. (ok ("token", 1000 + ttl), w) }

pub sample_keeps_db :
    (c : AccessClaims) (ttl : Duration) (w : World)
    → (sample_signer.sign_access c ttl w).1.db ≡ w.db
sample_keeps_db c ttl w = refl

abbrev pub sample_laws : SignerLaws sample_signer
sample_laws = record { keeps_db = sample_keeps_db }

abbrev pub sample_service : AuthService
sample_service = record {
  signer = sample_signer;
  access_ttl = 15;
  refresh_ttl = 100;
  pw_options = default_options;
}

abbrev pub alice : UserRow
alice = record {
  id = 1;
  email = "a@b.c";
  -- "$" and the hex digits of "abc12345"
  password_hash = "$6162633132333435";
  email_verified = true;
  created_at = 10;
  updated_at = 10;
}

-- The session of the refresh token "tok", on the device "web".
abbrev pub web_session : Session
web_session = record {
  id = 2;
  user_id = 1;
  device_id = "web";
  jti = "j";
  refresh_hash = "746f6b";
  ip = none;
  user_agent = "ua";
  created_at = 20;
  expires_at = 2000;
  replaced_by = none;
  revoked_at = none;
}

abbrev pub sample_world : World
sample_world = record { db = record { users = alice ∷ []; sessions = web_session ∷ [] }; tick = 0 }

pub sample_world-IsWellFormed : IsWellFormed sample_platform sample_world.db
sample_world-IsWellFormed = record {
  users_distinct = (refl, tt);
  sessions_distinct = (refl, tt);
  owned = (refl, tt);
}

-- Opening this opens what a run of the service computes with.
unfoldable pub runs : Unit {0}
unfolding register login refresh logout me refresh_found reject_reuse rotate_session Users.insert
    find_by_email find_by_id Users.insert_row create find_by_hash rotate link update_rows
    Sessions.insert_row revoke_all_by_user_and_device revoke_by_hash statement ◌>>=◌ new_session
    new_user parse_email parse_ip non_empty generate_opaque_token hash_sha256_hex hex_encode
    url_encode hex_digit url_digit hash_password check_password pre_kdf validate_password see
runs = tt
