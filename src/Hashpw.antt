-- ===== src/Hashpw.antt =====
-- tools/hashpw/main.go: the command that prints the hash of a password. The parsing of its flags is left
-- out: it begins with their values.
pub mod Accepted
use shelf_auth.Prelude.{
  none, some, ◌∷◌, [], String_eq, ℕ_eq, ℕ, String, Option, if◌then◌else◌, is_empty,
}
use shelf_auth.Errors.{Result, err, ok}
use shelf_auth.Platform.{Platform, Bytes}
use shelf_auth.Security.Password.{Options, default_options, hash_password}

-- The exit status, and the line on the standard output.
pub record Exit : Type 0 where
  pub status : ℕ
  pub printed : Option String

-- `utf8` is []byte of a text.
abbrev pub hash_options : (String → Bytes) → String → Options
hash_options utf8 pepper =
    if is_empty pepper then default_options else record default_options { pepper = utf8 pepper }

abbrev pub print_hash : Result String → Exit
print_hash (err e) = record { status = 1; printed = none }
print_hash (ok hash) = record { status = 0; printed = some hash }

unfoldable pub hashpw : Platform → (String → Bytes) → String → String → ℕ → Exit
hashpw p utf8 pw pepper salt =
    if is_empty pw
    then record { status = 2; printed = none }
    else print_hash (hash_password p pw (hash_options utf8 pepper) salt)
