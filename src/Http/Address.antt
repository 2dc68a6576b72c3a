-- ===== src/Http/Address.antt =====
-- internal/util/net.go: the address that a request came from.
use shelf_auth.Prelude.{
  String, Option, some, none, List, [], ◌∷◌, code, is_empty, trim_space, ◌==◌, ℕ_eq, if◌then◌else◌,
}
use shelf_auth.Platform.{Platform}
use shelf_auth.Http.{Request}

-- The first part of a text that is split at commas.
unfoldable pub before_comma : String → String
before_comma String.[] = String.[]
before_comma (String.◌∷◌ c s) = if code c == b',' then String.[] else String.◌∷◌ c (before_comma s)

-- The loop over the header fields that a proxy writes.
unfoldable pub claimed : Request → List String → Option String
claimed r [] = none
claimed r (name ∷ names) =
    let v = trim_space (r.header name) in
    if is_empty v then claimed r names else some (trim_space (before_comma v))

abbrev pub proxy_headers : List String
proxy_headers = "X-Forwarded-For" ∷ "X-Real-IP" ∷ "CF-Connecting-IP" ∷ []

unfoldable pub client_ip : Platform → Request → String
unfolding before_comma claimed
client_ip p r = elim (claimed r proxy_headers) [
  | some address ↦ address
  | none ↦ elim (p.split_host_port r.remote_addr) [ none ↦ r.remote_addr | some host ↦ host ]
]
