-- ===== src/Http/Jwks.antt =====
-- JWKSHandler (internal/httpserver/handlers/jwks.go), and the entity tag that the provider writes
-- (internal/auth/jwks/provider.go).
pub mod Fresh
use shelf_auth.Prelude.{
  ℕ_eq, String_eq, none, some, String, if◌then◌else◌, Char, ℕ, Bool, is_empty, List, code,
  trim_space, Option, not, ltb, ◌∷◌, ◌==◌, ◌&&◌, ◌/◌, [], any,
}
use shelf_auth.Platform.{Duration}

-- What a provider holds: the serialized key set, its tag, and the cache age in nanoseconds.
pub record KeySet : Type 0 where
  pub body : String
  pub etag : String
  pub max_age : Duration

-- Provider.Current
unfoldable pub current : KeySet → KeySet
current k =
    if is_empty k.body then record k { body = "{\"keys\":[]}"; etag = "W/\"jwks-empty\"" } else k

abbrev pub add_to_first : Char → List String → List String
add_to_first c [] = String.◌∷◌ c String.[] ∷ []
add_to_first c (part ∷ parts) = String.◌∷◌ c part ∷ parts

-- strings.Split at commas
unfoldable pub split_commas : String → List String
split_commas String.[] = String.[] ∷ []
split_commas (String.◌∷◌ c s) =
    let parts = split_commas s in if code c == b',' then String.[] ∷ parts else add_to_first c parts

-- strings.TrimPrefix(v, "W/")
unfoldable pub trim_weak : String → String
trim_weak String.[] = String.[]
trim_weak (String.◌∷◌ c String.[]) = String.◌∷◌ c String.[]
trim_weak (String.◌∷◌ c (String.◌∷◌ d s)) =
    if code c == b'W' && code d == b'/' then s else String.◌∷◌ c (String.◌∷◌ d s)

abbrev pub matches_tag : String → String → Bool
matches_tag etag v = trim_weak (trim_space v) == etag

pub record KeySetResponse : Type 0 where
  pub status : ℕ
  pub cache_control : Option ℕ
  pub etag : Option String
  pub body : Option String

abbrev pub not_modified : KeySetResponse
not_modified = record { status = 304; cache_control = none; etag = none; body = none }

-- The loop over the validators of If-None-Match.
abbrev pub is_fresh : String → String → Bool
is_fresh etag inm =
    not (is_empty etag) && not (is_empty inm) && any (matches_tag etag) (split_commas inm)

unfoldable pub jwks_handler : KeySet → Bool → String → KeySetResponse
unfolding current split_commas trim_weak
jwks_handler k is_head inm =
    let c = current k in
    if is_fresh c.etag inm then not_modified else record {
      status = 200;
      cache_control = if ltb 0 c.max_age then some (c.max_age / 1000000000) else none;
      etag = if is_empty c.etag then none else some c.etag;
      body = if is_head then none else some c.body;
    }
