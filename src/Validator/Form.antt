-- ===== src/Validator/Form.antt =====
-- `Validate` of a form and of a slice, which call the validators of the fields and of the elements,
-- and the choice of a validator by its type.
use mirror_backend.Common.{
  ℕ, ◌+◌, ◌%◌, ◌^◌, ◌==◌, String, Bool, true, false, ◌&&◌, List, [], ◌∷◌, ltb, if◌then◌else◌,
  str_eq, ℤ, pos, negsuc,
}
use mirror_backend.Text.{split}
use mirror_backend.Validator.{
  Any, nil, uint64, uint32, int64, nil_slice, slice, nil_pointer, pointer, struct, Items, no_item,
  item, Fields, no_field, field, ValidateError, wrong_type, empty, too_short, too_long, not_struct,
  not_slice, empty_message, in_field, at_index, Verdict, valid, invalid, unset_string, unset_number,
  panicked, NumberRule, Validator, form_validator, slice_validator, string_validator,
  bool_validator, uint64_validator, uint32_validator, int64_validator, other_validator,
  no_validator, Entries, no_entry, entry, verdict_of, when_nil, validate_string, validate_bool,
  check_number,
}

-- `<` on int64
unfoldable pub int_less : ℤ → ℤ → Bool
int_less (pos m) (pos n) = ltb m n
int_less (pos m) (negsuc n) = false
int_less (negsuc m) (pos n) = true
int_less (negsuc m) (negsuc n) = ltb n m

abbrev pub int_is_zero : ℤ → Bool
int_is_zero (pos n) = n == 0
int_is_zero (negsuc n) = false

unfoldable pub validate_uint64 : NumberRule ℕ → Any → Verdict
unfolding check_number
validate_uint64 r nil = when_nil r.optional
validate_uint64 r (uint64 n) = check_number ltb (λ k. k == 0) r n
validate_uint64 r _ = invalid wrong_type

unfoldable pub validate_uint32 : NumberRule ℕ → Any → Verdict
unfolding check_number
validate_uint32 r nil = when_nil r.optional
validate_uint32 r (uint32 n) = check_number ltb (λ k. k == 0) r n
validate_uint32 r _ = invalid wrong_type

unfoldable pub validate_int64 : NumberRule ℤ → Any → Verdict
unfolding check_number int_less
validate_int64 r nil = when_nil r.optional
validate_int64 r (int64 n) = check_number int_less int_is_zero r n
validate_int64 r _ = invalid wrong_type

abbrev first_part : String → List String → String
first_part name [] = name
first_part name (p ∷ ps) = if str_eq p "" then name else p

-- getFieldName
unfoldable pub field_name : String → String → String
field_name name tag =
    if str_eq tag "-" then "" else if str_eq tag "" then name else first_part name (split b',' tag)

-- f.Validators[fn]; a nil validator is passed over
unfoldable pub validator_of : Entries → String → Validator
validator_of no_entry fn = no_validator
validator_of (entry key v vs) fn =
    let rest = validator_of vs fn in if str_eq key fn then v else rest

abbrev pub is_empty : Entries → Bool
is_empty no_entry = true
is_empty (entry key v vs) = false

-- the elements' number
abbrev pub item_count : Items → ℕ
item_count no_item = 0
item_count (item x xs) = item_count xs + 1

-- what the error of a verdict that is not `valid` becomes; a `defaultValue` prints as ""
abbrev pub wrapped : (ValidateError → ValidateError) → Verdict → Verdict
wrapped f valid = valid
wrapped f (invalid e) = invalid (f e)
wrapped f unset_string = invalid (f empty_message)
wrapped f unset_number = invalid (f empty_message)
wrapped f panicked = panicked

-- For a pointer to a scalar the default is written: "" to a string, and the int 0 to a field that is
-- of another type, at which `reflect.Value.Set` panics.
abbrev pub written : Verdict → Verdict
written unset_string = valid
written unset_number = panicked
written d = d

abbrev pub and_then : Verdict → Verdict → Verdict
and_then valid d = d
and_then e d = e

abbrev pub check_slice_len : ℕ → ℕ → ℕ → Verdict → Verdict
check_slice_len min_len max_len count rest =
    if ltb count min_len
    then invalid too_short
    else if ltb 0 max_len && ltb max_len count
    then invalid too_long
    else rest

unfoldable pub validate_nil : Validator → Verdict
unfolding validate_string validate_bool validate_uint64 validate_uint32 validate_int64
validate_nil (form_validator optional vs) = when_nil optional
validate_nil (slice_validator optional min_len max_len v) = when_nil optional
validate_nil (string_validator r) = validate_string r nil
validate_nil (bool_validator optional) = validate_bool optional nil
validate_nil (uint64_validator r) = validate_uint64 r nil
validate_nil (uint32_validator r) = validate_uint32 r nil
validate_nil (int64_validator r) = validate_int64 r nil
validate_nil (other_validator f) = verdict_of (f nil)
validate_nil no_validator = valid

-- every validator but a form's and a slice's, at a value; these two at a value of another kind
unfoldable pub validate_leaf : Any → Validator → Verdict
unfolding validate_string validate_bool validate_uint64 validate_uint32 validate_int64
validate_leaf x (form_validator optional vs) = if is_empty vs then valid else invalid not_struct
validate_leaf x (slice_validator optional min_len max_len v) = invalid not_slice
validate_leaf x (string_validator r) = validate_string r x
validate_leaf x (bool_validator optional) = validate_bool optional x
validate_leaf x (uint64_validator r) = validate_uint64 r x
validate_leaf x (uint32_validator r) = validate_uint32 r x
validate_leaf x (int64_validator r) = validate_int64 r x
validate_leaf x (other_validator f) = verdict_of (f x)
validate_leaf x no_validator = valid

-- The cases of a field's kind: `whole` is the verdict on the field, `pointed` that on what it
-- points to.
abbrev pub choose_field : Any → Validator → Verdict → Verdict → Verdict
choose_field nil_pointer v whole pointed = validate_nil v
choose_field nil_slice v whole pointed = validate_nil v
choose_field (pointer (struct fs)) v whole pointed = whole
choose_field (pointer x) v whole pointed = written pointed
choose_field x v whole pointed = whole

abbrev pub choose_element : Any → Validator → Verdict → Verdict → Verdict
choose_element nil_pointer v whole pointed = validate_nil v
choose_element (pointer x) v whole pointed = pointed
choose_element x v whole pointed = whole

unfoldable mutual
  unfolding field_name validator_of validate_nil validate_leaf

  pub validate : Any → Validator → Verdict
  validate nil v = validate_nil v
  validate (struct fs) (form_validator optional vs) = validate_fields fs vs
  validate (pointer (struct fs)) (form_validator optional vs) = validate_fields fs vs
  validate nil_slice (slice_validator optional min_len max_len v) =
      if optional then valid else invalid empty
  validate (slice no_item) (slice_validator optional min_len max_len v) =
      if optional then valid else invalid empty
  validate (slice (item x xs)) (slice_validator optional min_len max_len v) =
      let first = choose_element x v (validate x v) (validate_pointed x v) in
      let rest = validate_elements xs 1 v in
      check_slice_len min_len max_len (item_count (item x xs) % 2 ^ 32)
        (and_then (wrapped (at_index 0) first) rest)
  validate x v = validate_leaf x v

  -- the value that a pointer points to
  pub validate_pointed : Any → Validator → Verdict
  validate_pointed (pointer x) v = validate x v
  validate_pointed x v = valid

  -- the loop over the fields
  pub validate_fields : Fields → Entries → Verdict
  validate_fields no_field vs = valid
  validate_fields (field name tag x fs) vs =
      let fn = field_name name tag in
      let v = validator_of vs fn in
      let this = choose_field x v (validate x v) (validate_pointed x v) in
      and_then (wrapped (in_field fn) this) (validate_fields fs vs)

  -- the loop over the elements
  pub validate_elements : Items → ℕ → Validator → Verdict
  validate_elements no_item i v = valid
  validate_elements (item x xs) i v =
      let this = choose_element x v (validate x v) (validate_pointed x v) in
      and_then (wrapped (at_index i) this) (validate_elements xs (i + 1) v)
