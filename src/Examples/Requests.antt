-- ===== src/Examples/Requests.antt =====
-- Requests that the validators see.
use mirror_backend.Common.{ℕ, ◌≤◌, true, false, none, some, [], get_or, ◌≡◌, ◌≢◌, ◌↔◌, refl}
use mirror_backend.Validator.{Any, str, valid, panicked, StringRule, NumberRule, validate_string}
use mirror_backend.Validator.Form.{validate}
use mirror_backend.Validator.Texts.{Accepts, validate_string_iff}
use mirror_backend.Validator.Tame.{KeepsZero}
use mirror_backend.Validator.Safe.{validate-never_panics}
use mirror_backend.Validator.Requests.{pagination_validator, context_info_validator}
use mirror_backend.Validator.Pagination.{pagination, pagination_validator-accepts}

abbrev name_rule : StringRule
name_rule = record {
  optional = false;
  unset_zero = true;
  min_len = 2;
  max_len = 60;
  charset = "abc";
  regex = none;
  validators = [];
}

validate_string_iff_example :
    (validate_string name_rule (str "cab") ≡ valid) ↔ Accepts name_rule (str "cab")
validate_string_iff_example = validate_string_iff name_rule (str "cab")

pagination_validator-accepts_example :
    (validate (pagination (some 1001) (some 2) none none (some "x")) pagination_validator ≡ valid)
    ↔ (get_or 0 (some 1001) ≤ 1000)
pagination_validator-accepts_example =
    pagination_validator-accepts (some 1001) (some 2) none none (some "x")

abbrev page_request : Any
page_request = pagination (some 10) none none none none

keeps : KeepsZero (context_info_validator false true)
unfolding KeepsZero
keeps = ((refl, tt), ((refl, tt), tt))

validate-never_panics_example : validate page_request (context_info_validator false true) ≢ panicked
validate-never_panics_example =
    validate-never_panics page_request (context_info_validator false true) keeps

abbrev unsetting : NumberRule ℕ
unsetting = record { optional = true; unset_zero = true; min = none; max = none; validators = [] }
