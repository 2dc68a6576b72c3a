-- ===== src/Http/Register.antt =====
-- RegisterHandler (internal/httpserver/handlers/register.go).
use shelf_auth.Prelude.{
  String, Option, ◌∷◌, none, some, trim_space, if◌then◌else◌, is_empty, ◌||◌, true, [],
}
use shelf_auth.Errors.{
  Error, Result, errors_is, err, invalid_email, ok, password_too_short, password_no_digit,
  password_no_upper, password_no_lower, empty_password, missing_password_hash, password_no_symbol,
  password_has_space, email_already_taken,
}
use shelf_auth.Platform.{Platform}
use shelf_auth.Http.{Response, switch, Handler, reply, fail, text, registered, serve, text_of}
use shelf_auth.Service.Register.{RegisterResult, register}
use shelf_auth.Service.Config.{AuthService}

pub record RegisterRequest : Type 0 where
  pub email : String
  pub password : String

unfoldable pub register_failed : Error → Response
register_failed e =
    switch
      ((errors_is e invalid_email, fail 400 "INVALID_EMAIL" (text "invalid email"))
        ∷ (
          errors_is e password_too_short,
          fail 400 "PASSWORD_TOO_SHORT" (text "password must be at least 8 characters long"),
        )
        ∷ (
          errors_is e password_no_digit,
          fail 400 "PASSWORD_NO_DIGIT" (text "password must contain at least one digit"),
        )
        ∷ (
          errors_is e password_no_upper,
          fail 400 "PASSWORD_NO_UPPERCASE"
              (text "password must contain at least one uppercase letter"),
        )
        ∷ (
          errors_is e password_no_lower,
          fail 400 "PASSWORD_NO_LOWERCASE"
              (text "password must contain at least one lowercase letter"),
        )
        ∷ (
          errors_is e empty_password,
          fail 400 "PASSWORD_EMPTY" (text "password must not be empty"),
        )
        ∷ (
          errors_is e missing_password_hash,
          fail 500 "PASSWORD_HASH_ERROR" (text "internal error while hashing password"),
        )
        ∷ (
          errors_is e password_no_symbol,
          fail 400 "PASSWORD_NO_SYMBOL" (text "password must contain at least one symbol"),
        )
        ∷ (
          errors_is e password_has_space,
          fail 400 "PASSWORD_HAS_SPACE" (text "password must not contain spaces"),
        )
        ∷ (errors_is e email_already_taken, fail 409 "EMAIL_TAKEN" (text "email already taken"))
        ∷ [])
      (fail 400 "INVALID_INPUT" (text_of "" e))

unfoldable pub register_reply : Result RegisterResult → Handler
unfolding register_failed
register_reply (err e) = reply (register_failed e)
register_reply (ok res) =
    reply (record { status = 201; body = registered res.id res.email; cookie = none })

-- Every account that registers here counts as verified.
unfoldable pub register_handler : Platform → AuthService → Option RegisterRequest → Handler
unfolding register_reply
register_handler p s none = reply (fail 400 "INVALID_JSON" (text "invalid JSON"))
register_handler p s (some req) =
    let email = trim_space req.email in
    if is_empty email || is_empty req.password
    then reply (fail 400 "MISSING_FIELDS" (text "email and password are required"))
    else serve (register p s email req.password true) register_reply
