-- ===== src/Validator/Requests.antt =====
-- The validators that handler/validator.go puts together. What `mail.ParseAddress` and regular
-- expressions accept is a parameter; the `Regex` of a rule is kept as its text.
use mirror_backend.Common.{
  ℕ, String, Bool, true, false, not, ◌&&◌, ◌||◌, Option, none, some, [], ◌∷◌, ◌==◌, str_eq,
  if◌then◌else◌,
}
use mirror_backend.Entity.Ud.{id_type_unknown, id_type_email}
use mirror_backend.Validator.{
  Any, str, uint32, ValidateError, custom, StringRule, NumberRule, Validator, form_validator,
  slice_validator, string_validator, uint64_validator, uint32_validator, Entries, no_entry, entry,
}

abbrev pub must_form : Entries → Validator
must_form vs = form_validator false vs

abbrev pub optional_form : Entries → Validator
optional_form vs = form_validator true vs

-- a rule with no more than its `Optional`
abbrev pub number_rule : {N : Type 0} → Bool → NumberRule N
number_rule optional = record {
  optional = optional;
  unset_zero = false;
  min = none;
  max = none;
  validators = [];
}

abbrev pub string_rule : Bool → StringRule
string_rule optional = record {
  optional = optional;
  unset_zero = false;
  min_len = 0;
  max_len = 0;
  charset = "";
  regex = none;
  validators = [];
}

abbrev pub default_max_limit : ℕ
default_max_limit = 1000

abbrev pub pagination_validator : Validator
pagination_validator = optional_form (
    entry "page" (uint32_validator (number_rule true)) (
      entry "limit" (uint32_validator (record (number_rule true) { max = some default_max_limit }))
        no_entry))

-- the keys of `entity.IDTypes`
abbrev check_id_type : ℕ → Option ValidateError
check_id_type id_type =
    if id_type == id_type_email && not (id_type == id_type_unknown)
    then none
    else some (custom "invalid id type")

-- the keys of `entity.UserStatuses`: pending, normal and deleted
abbrev pub check_user_status : ℕ → Option ValidateError
check_user_status status =
    if (status == 1 || (status == 2 || status == 3)) && not (status == 0)
    then none
    else some (custom "invalid user status")

abbrev pub user_status_validator : Any → Option ValidateError
user_status_validator (uint32 status) = check_user_status status
user_status_validator _ = some (custom "invalid user status")

-- the codes in `entity.Actions`
abbrev pub check_action_code : String → Option ValidateError
check_action_code code =
    if not (str_eq code "") && (str_eq code "edit_user" || str_eq code "edit_role")
    then none
    else some (custom "invalid action code")

abbrev pub actions_validator : Any → Option ValidateError
actions_validator (str code) = check_action_code code
actions_validator _ = some (custom "invalid action")

abbrev pub ud_validator : Validator
ud_validator = must_form (
    entry "id" (string_validator (string_rule false)) (
      entry "id_type"
        (uint32_validator (record (number_rule true) { validators = some check_id_type ∷ [] }))
        no_entry))

abbrev pub resource_name_validator : Bool → Validator
resource_name_validator optional = string_validator (record (string_rule optional) {
  unset_zero = true;
  max_len = 60;
  regex = some "^[0-9a-zA-Z_.\\s]+$";
})

abbrev pub ud_tag_val_validator : Validator
ud_tag_val_validator = must_form (
    entry "ud" ud_validator (
      entry "tag_vals"
        (slice_validator false 1 50 (
          must_form (
            entry "tag_id" (uint64_validator (number_rule true)) (
              entry "tag_name" (resource_name_validator true) (
                entry "tag_val" (string_validator (record (string_rule true) { max_len = 8192 }))
                  no_entry)))))
        no_entry))

abbrev pub password_validator : Bool → Validator
password_validator optional =
    string_validator
      (record (string_rule optional) { unset_zero = true; min_len = 8; max_len = 128 })

abbrev pub display_name_validator : Bool → Validator
display_name_validator optional = string_validator (record (string_rule optional) {
  unset_zero = true;
  max_len = 100;
  regex = some "^[a-zA-Z0-9_.\\s-]+$";
})

abbrev pub email_validator : (String → Option ValidateError) → Bool → Validator
email_validator parse_address optional = string_validator (record (string_rule optional) {
  unset_zero = true;
  max_len = 254;
  validators = some parse_address ∷ [];
})

abbrev pub resource_desc_validator : Bool → Validator
resource_desc_validator optional =
    string_validator (record (string_rule optional) { max_len = 200 })

abbrev check_domain : (String → Bool) → String → Option ValidateError
check_domain matches s = if matches s then none else some (custom "invalid domain format")

abbrev pub domain_validator : (String → Bool) → Bool → Validator
domain_validator matches optional =
    string_validator
      (record (string_rule optional) { validators = some (check_domain matches) ∷ [] })

abbrev id_form : Entries
id_form = entry "id" (uint64_validator (number_rule false)) no_entry

abbrev pub context_info_validator : Bool → Bool → Validator
context_info_validator optional_tenant optional_user = must_form (
    entry "User" (form_validator optional_user id_form)
      (entry "Tenant" (form_validator optional_tenant id_form) no_entry))
