-- ===== src/Errors.antt =====
-- Go error values: the sentinels of internal/domain/errors.go, internal/security/errors.go and
-- internal/service/me.go, pgx.ErrNoRows, coded PostgreSQL errors, and errors made in place.
use shelf_auth.Prelude.{
  inl, inr, refl, ℕ, String, Bool, true, false, ◌==◌, ℕ_eq, String_eq, ◌≡◌, arith, ◌⊎◌,
}

pub data Sentinel : Type 0 where
  invalid_email empty_password_hash invalid_device_id invalid_jti : Sentinel
  not_found : Sentinel
  invalid_credentials email_already_taken email_not_verified : Sentinel
  session_expired session_revoked refresh_reuse_detected : Sentinel
  missing_refresh invalid_refresh expired_refresh revoked_refresh reused_refresh : Sentinel
  invalid_access_token expired_access_token user_not_found : Sentinel
  password_too_short password_no_lower password_no_upper password_no_digit : Sentinel
  password_no_symbol password_has_space empty_password : Sentinel
  -- security.ErrEmptyPasswordHash, another value than domain.ErrEmptyPasswordHash
  missing_password_hash : Sentinel
  unauthorized : Sentinel
  -- pgx.ErrNoRows
  no_rows : Sentinel

-- Two sentinels are the same value if they have the same place in the list above.
abbrev pub place : Sentinel → ℕ
place invalid_email = 0
place empty_password_hash = 1
place invalid_device_id = 2
place invalid_jti = 3
place not_found = 4
place invalid_credentials = 5
place email_already_taken = 6
place email_not_verified = 7
place session_expired = 8
place session_revoked = 9
place refresh_reuse_detected = 10
place missing_refresh = 11
place invalid_refresh = 12
place expired_refresh = 13
place revoked_refresh = 14
place reused_refresh = 15
place invalid_access_token = 16
place expired_access_token = 17
place user_not_found = 18
place password_too_short = 19
place password_no_lower = 20
place password_no_upper = 21
place password_no_digit = 22
place password_no_symbol = 23
place password_has_space = 24
place empty_password = 25
place missing_password_hash = 26
place unauthorized = 27
place no_rows = 28

pub data Error : Type 0 where
  sentinel : Sentinel → Error
  -- fmt.Errorf("…: %w", err)
  wrap : String → Error → Error
  -- a *pgconn.PgError with its SQLSTATE
  pg_error : String → Error
  -- errors.New in place, and the errors of the libraries
  failure : String → Error

-- errors.Is(err, target)
abbrev pub errors_is : Error → Sentinel → Bool
errors_is (sentinel s) t = place s == place t
errors_is (wrap m e) t = errors_is e t
errors_is (pg_error c) t = false
errors_is (failure m) t = false

-- errors.As(err, &pgErr) && pgErr.Code == code
abbrev pub has_pg_code : Error → String → Bool
has_pg_code (sentinel s) code = false
has_pg_code (wrap m e) code = has_pg_code e code
has_pg_code (pg_error c) code = c == code
has_pg_code (failure m) code = false

pub data Result {ℓ} (A : Type ℓ) : Type ℓ where
  ok : A → Result A
  err : Error → Result A

abbrev pub is_ok {ℓ} : {A : Type ℓ} → Result A → Bool
is_ok (ok a) = true
is_ok (err e) = false

-- `if !b { return nil, err }`
abbrev pub require : Bool → Error → Result (Unit {0})
require true e = ok tt
require false e = err e

-- `if err != nil { return nil, e }` with an error of the caller's own.
abbrev pub or_else {ℓ} : {A : Type ℓ} → Result A → Error → Result A
or_else (ok a) e = ok a
or_else (err _) e = err e

-- A chain of steps, each with `if err != nil { return nil, err }`.
module _ {ℓ κ} {A : Type ℓ} {B : Type κ} where
  infixl 5 ◌>>=◌
  abbrev pub ◌>>=◌ : Result A → (A → Result B) → Result B
  (err e) >>= next = err e
  (ok a) >>= next = next a

infixl 5 ◌>>◌
abbrev pub ◌>>◌ {κ} : {B : Type κ} → Result (Unit {0}) → Result B → Result B
first >> rest = first >>= (λ done. rest)

pub ok-injective {ℓ} : {A : Type ℓ} {a b : A} → ok a ≡ ok b → a ≡ b
ok-injective h = cc

pub ok-of_is_ok {ℓ} : {A : Type ℓ} (r : Result A) → is_ok r ≡ true → (a : A) × (r ≡ ok a)
ok-of_is_ok (ok a) h = (a, refl)
ok-of_is_ok (err e) h = absurd (ground arith)

pub Result-cases {ℓ} :
    {A : Type ℓ} (r : Result A) → ((e : Error) × (r ≡ err e)) ⊎ ((a : A) × (r ≡ ok a))
Result-cases (err e) = inl (e, refl)
Result-cases (ok a) = inr (a, refl)
