-- ===== src/Validator/Pagination.antt =====
-- Which paginations of a request are accepted.
use mirror_backend.Common.{
  ℕ, ◌≤◌, String, Bool, true, Option, none, some, ◌==◌, ltb, leb, leb→le, ◌<◌, Bool-cases, inl, inr,
  get_or, ◌≡◌, ◌↔◌, arith, refl,
}
use mirror_backend.Validator.{
  Any, str, boolean, uint32, nil_pointer, pointer, struct, Fields, no_field, field, above_max,
  invalid, valid, NumberRule, uint32_validator, Entries, no_entry, entry, check_number,
  run_validators,
}
use mirror_backend.Validator.Form.{
  validate, validate_fields, field_name, validator_of, validate_nil, validate_leaf, validate_uint32,
}
use mirror_backend.Text.{split}
use mirror_backend.Validator.Requests.{number_rule, default_max_limit, pagination_validator}

-- an optional uint32 of a request
abbrev pub uint32_field : Option ℕ → Any
uint32_field none = nil_pointer
uint32_field (some n) = pointer (uint32 n)

abbrev bool_field : Option Bool → Any
bool_field none = nil_pointer
bool_field (some b) = pointer (boolean b)

abbrev string_field : Option String → Any
string_field none = nil_pointer
string_field (some t) = pointer (str t)

-- the fields of a request's repo.Pagination behind its limit and its page
abbrev other_fields : Option ℕ → Option Bool → Option String → Fields
other_fields total has_next cursor = field "Total" "total,omitempty" (uint32_field total) (
    field "HasNext" "has_next,omitempty" (bool_field has_next)
      (field "Cursor" "cursor,omitempty" (string_field cursor) no_field))

abbrev pub pagination : Option ℕ → Option ℕ → Option ℕ → Option Bool → Option String → Any
pagination limit page total has_next cursor = pointer (
    struct (
      field "Limit" "limit,omitempty" (uint32_field limit)
        (field "Page" "page,omitempty" (uint32_field page) (other_fields total has_next cursor))))

abbrev page_entries : Entries
page_entries = entry "page" (uint32_validator (number_rule true)) (
    entry "limit" (uint32_validator (record (number_rule true) { max = some default_max_limit }))
      no_entry)

other_fields-valid :
    (total : Option ℕ) (has_next : Option Bool) (cursor : Option String)
    → validate_fields (other_fields total has_next cursor) page_entries ≡ valid
unfolding validate validator_of field_name validate_nil validate_leaf split
other_fields-valid none none none = refl
other_fields-valid none none (some t) = refl
other_fields-valid none (some b) none = refl
other_fields-valid none (some b) (some t) = refl
other_fields-valid (some n) none none = refl
other_fields-valid (some n) none (some t) = refl
other_fields-valid (some n) (some b) none = refl
other_fields-valid (some n) (some b) (some t) = refl

check_page : (p : ℕ) → check_number ltb (λ k. k == 0) (number_rule true) p ≡ valid
unfolding check_number run_validators
check_page p = ground arith

page-valid :
    (page total : Option ℕ) (has_next : Option Bool) (cursor : Option String)
    → validate_fields
        (field "Page" "page,omitempty" (uint32_field page) (other_fields total has_next cursor))
        page_entries
      ≡ valid
unfolding validate validator_of field_name validate_nil validate_leaf validate_uint32 split
page-valid none total has_next cursor = other_fields-valid total has_next cursor
page-valid (some p) total has_next cursor =
    rw (check_page p) (other_fields-valid total has_next cursor)

abbrev limit_rule : NumberRule ℕ
limit_rule = record (number_rule true) { max = some default_max_limit }

check_limit_in : (l : ℕ) → l ≤ 1000 → check_number ltb (λ k. k == 0) limit_rule l ≡ valid
unfolding check_number run_validators
check_limit_in l h = ground arith

check_limit_above :
    (l : ℕ) → 1000 < l → check_number ltb (λ k. k == 0) limit_rule l ≡ invalid above_max
unfolding check_number run_validators
check_limit_above l h = ground arith

-- The pagination of a request is accepted exactly if its limit is 1000 at most or is not given,
-- whatever its other fields are.
pub pagination_validator-accepts :
    (limit page total : Option ℕ) (has_next : Option Bool) (cursor : Option String)
    → (validate (pagination limit page total has_next cursor) pagination_validator ≡ valid)
      ↔ (get_or 0 limit ≤ 1000)
unfolding validate validator_of field_name validate_nil validate_leaf validate_uint32 split
pagination_validator-accepts none page total has_next cursor =
    let rest = page-valid page total has_next cursor in (λ h. omega arith, λ h. rest)
pagination_validator-accepts (some l) page total has_next cursor =
    let rest = page-valid page total has_next cursor in
    elim (Bool-cases (leb l 1000)) [
      | inl low ↦
          let within = leb→le l 1000 low in (λ h. within, λ h. rw (check_limit_in l within) rest)
      | inr high ↦
          let above : 1000 < l = ground arith in
          rw (check_limit_above l above) (λ h. cc, λ h. absurd (omega arith))
    ]
