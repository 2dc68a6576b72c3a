-- ===== src/Startup.antt =====
-- cmd/shelf-auth/main.go: the parts of the program, as the configuration puts them together, until the
-- server listens.
pub mod Wired
pub mod Account
pub mod Serving
pub mod Running
use shelf_auth.Prelude.{
  none, some, ◌∷◌, [], String_eq, ℕ_eq, Option, ℕ, List, trim_space, if◌then◌else◌, Bool, is_empty,
  ◌||◌, ◌==◌, ltb,
}
use shelf_auth.Keys.{KeyLibrary, Entry}
use shelf_auth.Errors.{◌>>=◌, ◌>>◌, Result, ok}
use shelf_auth.Settings.{Config, Level, parse_level, load}
use shelf_auth.Platform.{Platform}
use shelf_auth.Keys.Tokens.{TokenLibrary, token_signer, token_verifier}
use shelf_auth.Keys.Signing.{Signer, new_signer, set_active_kid}
use shelf_auth.Keys.Provider.{Marshal, Provider, new_provider}
use shelf_auth.Pool.{PoolLibrary, open_pool}
use shelf_auth.Http.Routes.{Server}
use shelf_auth.Security.Password.{default_options}
use shelf_auth.Http.Cookies.{parse_same_site}

-- The libraries of the parts.
pub record Libraries : Type 0 where
  pub keys : KeyLibrary
  pub tokens : TokenLibrary
  pub marshal : Marshal
  pub pool : PoolLibrary

-- What the parts read at the start: the environment, and the directory of the keys.
pub record Surroundings : Type 0 where
  pub parsed : Result Config
  pub listing : Option (List Entry)
  pub walk : List Entry

pub record Program : Type 0 where
  pub config : Config
  pub level : Level
  pub pool : ℕ
  pub provider : Provider
  pub signer : Signer
  pub server : Server
  pub reloads : Bool

-- The key that ACTIVE_KID_RUNTIME names replaces the active one, if it is loaded.
unfoldable pub override_kid : Config → Signer → Signer
override_kid c s =
    let kid = trim_space c.active_kid_runtime in
    if is_empty kid || kid == c.signing_key_kid then s else (set_active_kid kid s).1

module _ (p : Platform) (libs : Libraries) where
  abbrev pub started_signer : Config → Option (List Entry) → Signer
  started_signer c listing = override_kid c (
      new_signer libs.keys c.keys_dir c.signing_key_kid c.jwt_alg c.access_ttl c.jwt_iss c.jwt_aud
        listing)

  abbrev pub wire : Surroundings → Config → ℕ → Program
  wire e c pool =
      let j = new_provider p libs.keys libs.marshal c.keys_dir c.jwt_alg c.jwks_max_age e.walk in
      let sign = started_signer c e.listing in
      record {
        config = c;
        level = parse_level c.log_level;
        pool = pool;
        provider = j;
        signer = sign;
        server = record {
          service = record {
            signer = token_signer p libs.tokens sign;
            access_ttl = c.access_ttl;
            refresh_ttl = c.refresh_ttl;
            pw_options = default_options;
          };
          verifier = token_verifier p libs.tokens sign;
          key_set = j.held;
          cookies = record {
            secure = c.cookie_secure;
            same_site = parse_same_site c.cookie_same_site;
            domain = c.cookie_domain;
          };
          cors_origins = c.cors_origins;
        };
        reloads = ltb 0 c.keys_reload_interval;
      }

  unfoldable pub start : Surroundings → Result Program
  start e = do c ← load e.parsed; pool ← (open_pool libs.pool c.database_url).0; ok (wire e c pool)
