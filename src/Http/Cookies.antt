-- ===== src/Http/Cookies.antt =====
-- internal/httpserver/handlers/cookies.go and samesite.go: the cookie refresh_token. Its name,
-- its path "/" and HttpOnly are the same in every cookie.
use shelf_auth.Prelude.{ℕ, ◌-◌, ◌/◌, leb, String, Bool, ◌==◌, ◌||◌, String_eq, if◌then◌else◌}
use shelf_auth.Platform.{Time}

pub data SameSite : Type 0 where
  lax_mode strict_mode none_mode : SameSite

-- ParseSameSite
unfoldable pub parse_same_site : String → SameSite
parse_same_site v =
    if v == "Strict" || v == "strict"
    then strict_mode
    else if v == "None" || v == "none"
    then none_mode
    else lax_mode

pub record CookieCfg : Type 0 where
  pub secure : Bool
  pub same_site : SameSite
  pub domain : String

-- A Go int, by its sign.
pub data Seconds : Type 0 where
  ahead : ℕ → Seconds
  behind : ℕ → Seconds

pub record Cookie : Type 0 where
  pub value : String
  pub secure : Bool
  pub same_site : SameSite
  pub max_age : Seconds
  pub expires : Time
  pub domain : String

-- int(time.Until(exp).Seconds()), at a time: nanoseconds are dropped towards zero.
abbrev pub seconds_until : Time → Time → Seconds
seconds_until at exp =
    if leb at exp then ahead ((exp - at) / 1000000000) else behind ((at - exp) / 1000000000)

-- setRefreshCookie
abbrev pub refresh_cookie : String → Time → CookieCfg → Time → Cookie
refresh_cookie value exp cfg at = record {
  value = value;
  secure = cfg.secure;
  same_site = cfg.same_site;
  max_age = seconds_until at exp;
  expires = exp;
  domain = cfg.domain;
}

-- time.Unix(0, 0), in nanoseconds since the zero time.Time.
abbrev pub unix_epoch : Time
unix_epoch = 62135596800000000000

-- clearRefreshCookie
abbrev pub cleared_cookie : CookieCfg → Cookie
cleared_cookie cfg = record {
  value = "";
  secure = cfg.secure;
  same_site = cfg.same_site;
  max_age = ahead 0;
  expires = unix_epoch;
  domain = cfg.domain;
}
