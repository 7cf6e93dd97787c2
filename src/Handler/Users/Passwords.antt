-- ===== src/Handler/Users/Passwords.antt =====
-- The validator of `InitUser` of handler/user.go lets no empty password pass.
use mirror_backend.Common.{
  String, Bool, true, false, Option, none, some, if◌then◌else◌, get_or, str_eq, ◌≡◌, ◌≢◌, ◌⊎◌, inl,
  inr, refl,
}
use mirror_backend.Text.{split}
use mirror_backend.Handler.Users.Init.{init_request_value, init_user_validator}
use mirror_backend.Validator.{
  Verdict, ValidateError, valid, invalid, unset_string, unset_number, panicked, in_field,
  validate_string, check_text, str, StringRule,
}
use mirror_backend.Validator.Form.{validate, and_then, wrapped, written}
use mirror_backend.Validator.Requests.{string_rule}

-- the two fields of the request
both_valid :
    (d e : Verdict)
    → and_then
        (wrapped (in_field "token") (written d))
        (and_then (wrapped (in_field "password") (written e)) valid)
      ≡ valid
    → (e ≡ valid) ⊎ (e ≡ unset_string)
both_valid valid valid h = inl refl
both_valid valid unset_string h = inr refl
both_valid unset_string valid h = inl refl
both_valid unset_string unset_string h = inr refl
both_valid valid (invalid x) h = absurd cc
both_valid valid unset_number h = absurd cc
both_valid valid panicked h = absurd cc
both_valid unset_string (invalid x) h = absurd cc
both_valid unset_string unset_number h = absurd cc
both_valid unset_string panicked h = absurd cc
both_valid (invalid x) e h = absurd cc
both_valid unset_number e h = absurd cc
both_valid panicked e h = absurd cc

invalid_not_valid : (x : ValidateError) → invalid x ≢ valid
invalid_not_valid x h = cc

behind_invalid :
    (d : Verdict) (x : ValidateError) → and_then (wrapped (in_field "token") d) (invalid x) ≢ valid
behind_invalid valid x h = cc
behind_invalid (invalid y) x h = cc
behind_invalid unset_string x h = cc
behind_invalid unset_number x h = cc
behind_invalid panicked x h = cc

abbrev password_rule : StringRule
password_rule = record (string_rule false) { unset_zero = true; min_len = 8; max_len = 128 }

not_empty :
    (p : String) (d : Verdict)
    → (if str_eq p "" then invalid ValidateError.empty else d) ≡ valid
      ⊎ (if str_eq p "" then invalid ValidateError.empty else d) ≡ unset_string
    → str_eq p "" ≡ false
not_empty p d h = go (str_eq p "") h
  where
    go :
        (b : Bool)
        → (if b then invalid ValidateError.empty else d) ≡ valid
          ⊎ (if b then invalid ValidateError.empty else d) ≡ unset_string
        → b ≡ false
    go true (inl h) = absurd cc
    go true (inr h) = absurd cc
    go false h = refl

pub valid_password :
    (token password : Option String)
    → validate
        (init_request_value (record { token = token; password = password }))
        init_user_validator
      ≡ valid
    → str_eq (get_or "" password) "" ≡ false
unfolding validate validate_string split
valid_password none password h = absurd (invalid_not_valid _ h)
valid_password (some t) none h =
    absurd (behind_invalid (written (validate_string (string_rule false) (str t))) _ h)
valid_password (some t) (some p) h = not_empty p (check_text password_rule p) (
    both_valid (validate_string (string_rule false) (str t)) (validate_string password_rule (str p))
      h)
