-- ===== src/Settings.antt =====
-- internal/config and internal/logging: the configuration, its validation, and the level of the log.
-- The parsing of the environment is a parameter.
use shelf_auth.Prelude.{
  ◌∷◌, [], String_eq, ℕ_eq, String, ℕ, if◌then◌else◌, Bool, List, ◌==◌, ◌||◌, codes, true, false,
  not, ◌&&◌, is_empty, trim_space,
}
use shelf_auth.Errors.{◌>>=◌, ◌>>◌, Result, require, failure, ok}
use shelf_auth.Platform.{Duration}
use shelf_auth.Keys.{lower}

pub record Config : Type 0 where
  pub env : String
  pub http_addr : String
  pub log_level : String
  pub jwt_alg : String
  pub jwt_iss : String
  pub jwt_aud : String
  pub access_ttl : Duration
  pub refresh_ttl : Duration
  pub jwks_max_age : Duration
  pub keys_dir : String
  pub signing_key_kid : String
  pub keys_reload_interval : Duration
  pub active_kid_runtime : String
  pub database_url : String
  pub cors_origins : List String
  pub cookie_secure : Bool
  pub cookie_same_site : String
  pub cookie_domain : String

-- Load, for what env.Parse returns.
unfoldable pub load : Result Config → Result Config
load parsed = do
  c ← parsed
  require (c.jwt_alg == "RS256") (failure "JWT_ALG must be RS256 for now")
  require (not (is_empty (trim_space c.keys_dir))) (failure "KEYS_DIR is required")
  require (not (is_empty (trim_space c.signing_key_kid)))
      (failure "SIGNING_KEY_KID is required (e.g. k1-2025-08-25)")
  ok c

pub data Level : Type 0 where
  debug_level info_level warn_level error_level : Level

-- unicode.ToLower, as far as its result is an ASCII letter of a level: U+0130 becomes i.
abbrev pub lower_rune : ℕ → ℕ
lower_rune c = if c == 304 then b'i' else lower c

-- Are the first runes, in lower case, the second ones?
abbrev pub reads_as : List ℕ → List ℕ → Bool
reads_as [] [] = true
reads_as [] (d ∷ name) = false
reads_as (c ∷ s) [] = false
reads_as (c ∷ s) (d ∷ name) = lower_rune c == d && reads_as s name

unfoldable pub parse_level : String → Level
parse_level s =
    if reads_as (codes s) (codes "debug")
    then debug_level
    else if reads_as (codes s) (codes "warn") || reads_as (codes s) (codes "warning")
    then warn_level
    else if reads_as (codes s) (codes "error")
    then error_level
    else info_level
