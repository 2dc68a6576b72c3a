-- ===== src/Domain/Emails.antt =====
-- Laws of ParseEmail (internal/domain/email.go).
use shelf_auth.Domain.{parse_email, Email, is_zero_email}
use shelf_auth.Platform.{Platform}
use shelf_auth.Prelude.{
  String, ◌≡◌, trim_space, false, true, ◌⊎◌, is_empty, ◌||◌, not, Bool-cases, inl, inr, arith,
  trim_space_idem, refl,
}
use shelf_auth.Errors.{ok, err, sentinel, invalid_email}

-- ParseEmail accepts a text exactly if it is, without the white space around it, not empty and an
-- address; the email is that trimmed text, and parses again to itself. Every other text gives
-- ErrInvalidEmail.
pub parse_email_normalizes :
    (p : Platform) (raw : String)
    → ((e : Email) × (parse_email p raw ≡ ok e)
        × (e.value ≡ trim_space raw)
        × (is_zero_email e ≡ false)
        × (p.is_address e.value ≡ true)
        × (parse_email p e.value ≡ ok e))
      ⊎ ((parse_email p raw ≡ err (sentinel invalid_email))
          × ((is_empty (trim_space raw) || not (p.is_address (trim_space raw))) ≡ true))
unfolding parse_email
parse_email_normalizes p raw =
    elim (Bool-cases (is_empty (trim_space raw) || not (p.is_address (trim_space raw)))) [
      | inl refused ↦ inr (ground arith, refused)
      | inr accepted ↦ inl (
        record { value = trim_space raw },
        ground arith,
        refl,
        ground arith,
        ground arith,
        ground (arith, trim_space_idem raw),
      )
    ]
