-- ===== src/Platform.antt =====
-- What the program relies on and does not implement: functions of libraries outside the
-- repository (google/uuid, x/crypto/bcrypt, PostgreSQL's CITEXT), large functions of the Go
-- standard library (SHA-256, HMAC, the grammars of net/mail and net), and the world's answers
-- (clock, randomness, generated keys, failures of the database), one for each call in turn.
use shelf_auth.Prelude.{ℕ, String, Bool, Option, List}

-- A point in time, in nanoseconds since the zero time.Time; a time.Duration that is not negative.
abbrev pub Time : Type 0
Time = ℕ

abbrev pub Duration : Type 0
Duration = ℕ

abbrev pub Bytes : Type 0
Bytes = List ℕ

-- The 16 bytes of a uuid.UUID as one number; uuid.Nil is 0.
abbrev pub EntityId : Type 0
EntityId = ℕ

-- A net.IP.
abbrev pub IpAddress : Type 0
IpAddress = Bytes

-- The classes of package unicode that the password policy asks for (white space is `is_space`).
pub record RuneClasses : Type 0 where
  pub is_lower : ℕ → Bool
  pub is_upper : ℕ → Bool
  pub is_digit : ℕ → Bool
  pub is_punct : ℕ → Bool
  pub is_symbol : ℕ → Bool

pub record Platform : Type 0 where
  pub runes : RuneClasses
  -- does mail.ParseAddress succeed?
  pub is_address : String → Bool
  -- net.ParseIP
  pub parse_net_ip : String → Option IpAddress
  -- the host that net.SplitHostPort returns
  pub split_host_port : String → Option String
  -- uuid.Parse, and the text of a UUID
  pub parse_uuid : String → Option EntityId
  pub uuid_text : EntityId → String
  -- SHA-256 of a text's bytes; HMAC-SHA256 by key
  pub sha256 : String → Bytes
  pub hmac_sha256 : Bytes → String → Bytes
  -- bcrypt.GenerateFromPassword (the first argument stands for the salt) and
  -- bcrypt.CompareHashAndPassword, with no error
  pub bcrypt_generate : ℕ → String → ℕ → Option String
  pub bcrypt_matches : String → String → Bool
  -- two CITEXT values are equal if these are
  pub citext : String → String
  -- the clock, crypto/rand, generated UUIDs and database failures, by the number of the call
  pub clock : ℕ → Time
  pub entropy : ℕ → ℕ → Option Bytes
  pub fresh_id : ℕ → EntityId
  pub fault : ℕ → Option String
