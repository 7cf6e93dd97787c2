-- ===== src/Validator/Safe.antt =====
-- Where validating cannot panic.
use mathlib.Core.Path.{subst}
use mirror_backend.Common.{ℕ, ◌+◌, String, Bool, true, eq_iff, ◌≡◌, ◌≢◌, refl}
use mirror_backend.Validator.{
  Any, nil, str, boolean, uint64, uint32, int64, named, nil_slice, slice, nil_pointer, pointer,
  struct, Items, no_item, item, Fields, no_field, field, ValidateError, Verdict, valid, invalid,
  panicked, NumberRule, Validator, form_validator, slice_validator, string_validator,
  bool_validator, uint64_validator, uint32_validator, int64_validator, other_validator,
  no_validator, Entries, entry, check_number,
}
use mirror_backend.Validator.Tame.{
  KeepsZero, AllKeepZero, Tame, Tame-if, Tame-wrapped, Tame-written, Tame-and_then,
  Tame-validate_nil, Tame-validate_leaf, validator_of-KeepsZero, Tame-check_slice_len,
}
use mirror_backend.Validator.Form.{
  field_name, validator_of, validate_uint64, validate_leaf, choose_field, choose_element, validate,
  validate_pointed, validate_fields, validate_elements,
}

Tame-choose_field :
    (x : Any) (v : Validator) (d e : Verdict)
    → KeepsZero v
    → Tame d
    → Tame e
    → Tame (choose_field x v d e)
Tame-choose_field nil v d e h hd he = hd
Tame-choose_field (boolean b) v d e h hd he = hd
Tame-choose_field (uint64 n) v d e h hd he = hd
Tame-choose_field (uint32 n) v d e h hd he = hd
Tame-choose_field (int64 n) v d e h hd he = hd
Tame-choose_field (str s) v d e h hd he = hd
Tame-choose_field named v d e h hd he = hd
Tame-choose_field nil_slice v d e h hd he = Tame-validate_nil v h
Tame-choose_field (slice xs) v d e h hd he = hd
Tame-choose_field nil_pointer v d e h hd he = Tame-validate_nil v h
Tame-choose_field (pointer nil) v d e h hd he = Tame-written e he
Tame-choose_field (pointer (boolean b)) v d e h hd he = Tame-written e he
Tame-choose_field (pointer (uint64 n)) v d e h hd he = Tame-written e he
Tame-choose_field (pointer (uint32 n)) v d e h hd he = Tame-written e he
Tame-choose_field (pointer (int64 n)) v d e h hd he = Tame-written e he
Tame-choose_field (pointer (str s)) v d e h hd he = Tame-written e he
Tame-choose_field (pointer named) v d e h hd he = Tame-written e he
Tame-choose_field (pointer nil_slice) v d e h hd he = Tame-written e he
Tame-choose_field (pointer (slice xs)) v d e h hd he = Tame-written e he
Tame-choose_field (pointer nil_pointer) v d e h hd he = Tame-written e he
Tame-choose_field (pointer (pointer x)) v d e h hd he = Tame-written e he
Tame-choose_field (pointer (struct fs)) v d e h hd he = hd
Tame-choose_field (struct fs) v d e h hd he = hd

Tame-choose_element :
    (x : Any) (v : Validator) (d e : Verdict)
    → KeepsZero v
    → Tame d
    → Tame e
    → Tame (choose_element x v d e)
Tame-choose_element nil v d e h hd he = hd
Tame-choose_element (boolean b) v d e h hd he = hd
Tame-choose_element (uint64 n) v d e h hd he = hd
Tame-choose_element (uint32 n) v d e h hd he = hd
Tame-choose_element (int64 n) v d e h hd he = hd
Tame-choose_element (str s) v d e h hd he = hd
Tame-choose_element named v d e h hd he = hd
Tame-choose_element nil_slice v d e h hd he = hd
Tame-choose_element (slice xs) v d e h hd he = hd
Tame-choose_element nil_pointer v d e h hd he = Tame-validate_nil v h
Tame-choose_element (pointer x) v d e h hd he = he
Tame-choose_element (struct fs) v d e h hd he = hd

mutual
  unfolding validate KeepsZero

  Tame-validate : (x : Any) (v : Validator) → KeepsZero v → Tame (validate x v)
  Tame-validate nil v h = Tame-validate_nil v h
  Tame-validate (struct fs) (form_validator optional vs) h = Tame-validate_fields fs vs h
  Tame-validate (struct fs) (slice_validator optional min_len max_len w) h =
      Tame-validate_leaf (struct fs) (slice_validator optional min_len max_len w) h
  Tame-validate (struct fs) (string_validator r) h =
      Tame-validate_leaf (struct fs) (string_validator r) h
  Tame-validate (struct fs) (bool_validator optional) h =
      Tame-validate_leaf (struct fs) (bool_validator optional) h
  Tame-validate (struct fs) (uint64_validator r) h =
      Tame-validate_leaf (struct fs) (uint64_validator r) h
  Tame-validate (struct fs) (uint32_validator r) h =
      Tame-validate_leaf (struct fs) (uint32_validator r) h
  Tame-validate (struct fs) (int64_validator r) h =
      Tame-validate_leaf (struct fs) (int64_validator r) h
  Tame-validate (struct fs) (other_validator f) h =
      Tame-validate_leaf (struct fs) (other_validator f) h
  Tame-validate (struct fs) no_validator h = Tame-validate_leaf (struct fs) no_validator h
  Tame-validate (pointer (struct fs)) (form_validator optional vs) h = Tame-validate_fields fs vs h
  Tame-validate (pointer (struct fs)) (slice_validator optional min_len max_len w) h =
      Tame-validate_leaf (pointer (struct fs)) (slice_validator optional min_len max_len w) h
  Tame-validate (pointer (struct fs)) (string_validator r) h =
      Tame-validate_leaf (pointer (struct fs)) (string_validator r) h
  Tame-validate (pointer (struct fs)) (bool_validator optional) h =
      Tame-validate_leaf (pointer (struct fs)) (bool_validator optional) h
  Tame-validate (pointer (struct fs)) (uint64_validator r) h =
      Tame-validate_leaf (pointer (struct fs)) (uint64_validator r) h
  Tame-validate (pointer (struct fs)) (uint32_validator r) h =
      Tame-validate_leaf (pointer (struct fs)) (uint32_validator r) h
  Tame-validate (pointer (struct fs)) (int64_validator r) h =
      Tame-validate_leaf (pointer (struct fs)) (int64_validator r) h
  Tame-validate (pointer (struct fs)) (other_validator f) h =
      Tame-validate_leaf (pointer (struct fs)) (other_validator f) h
  Tame-validate (pointer (struct fs)) no_validator h =
      Tame-validate_leaf (pointer (struct fs)) no_validator h
  Tame-validate nil_slice (form_validator optional vs) h =
      Tame-validate_leaf nil_slice (form_validator optional vs) h
  Tame-validate nil_slice (slice_validator optional min_len max_len w) h =
      Tame-if optional valid (invalid ValidateError.empty) tt tt
  Tame-validate nil_slice (string_validator r) h =
      Tame-validate_leaf nil_slice (string_validator r) h
  Tame-validate nil_slice (bool_validator optional) h =
      Tame-validate_leaf nil_slice (bool_validator optional) h
  Tame-validate nil_slice (uint64_validator r) h =
      Tame-validate_leaf nil_slice (uint64_validator r) h
  Tame-validate nil_slice (uint32_validator r) h =
      Tame-validate_leaf nil_slice (uint32_validator r) h
  Tame-validate nil_slice (int64_validator r) h = Tame-validate_leaf nil_slice (int64_validator r) h
  Tame-validate nil_slice (other_validator f) h = Tame-validate_leaf nil_slice (other_validator f) h
  Tame-validate nil_slice no_validator h = Tame-validate_leaf nil_slice no_validator h
  Tame-validate (slice no_item) (form_validator optional vs) h =
      Tame-validate_leaf (slice no_item) (form_validator optional vs) h
  Tame-validate (slice no_item) (slice_validator optional min_len max_len w) h =
      Tame-if optional valid (invalid ValidateError.empty) tt tt
  Tame-validate (slice no_item) (string_validator r) h =
      Tame-validate_leaf (slice no_item) (string_validator r) h
  Tame-validate (slice no_item) (bool_validator optional) h =
      Tame-validate_leaf (slice no_item) (bool_validator optional) h
  Tame-validate (slice no_item) (uint64_validator r) h =
      Tame-validate_leaf (slice no_item) (uint64_validator r) h
  Tame-validate (slice no_item) (uint32_validator r) h =
      Tame-validate_leaf (slice no_item) (uint32_validator r) h
  Tame-validate (slice no_item) (int64_validator r) h =
      Tame-validate_leaf (slice no_item) (int64_validator r) h
  Tame-validate (slice no_item) (other_validator f) h =
      Tame-validate_leaf (slice no_item) (other_validator f) h
  Tame-validate (slice no_item) no_validator h = Tame-validate_leaf (slice no_item) no_validator h
  Tame-validate (slice (item x xs)) (form_validator optional vs) h =
      Tame-validate_leaf (slice (item x xs)) (form_validator optional vs) h
  Tame-validate (slice (item x xs)) (slice_validator optional min_len max_len w) h =
      Tame-check_slice_len min_len max_len _ _ (
        Tame-and_then _ _
          (Tame-wrapped _ _
            (Tame-choose_element x w _ _ h (Tame-validate x w h) (Tame-validate_pointed x w h)))
          (Tame-validate_elements xs 1 w h))
  Tame-validate (slice (item x xs)) (string_validator r) h =
      Tame-validate_leaf (slice (item x xs)) (string_validator r) h
  Tame-validate (slice (item x xs)) (bool_validator optional) h =
      Tame-validate_leaf (slice (item x xs)) (bool_validator optional) h
  Tame-validate (slice (item x xs)) (uint64_validator r) h =
      Tame-validate_leaf (slice (item x xs)) (uint64_validator r) h
  Tame-validate (slice (item x xs)) (uint32_validator r) h =
      Tame-validate_leaf (slice (item x xs)) (uint32_validator r) h
  Tame-validate (slice (item x xs)) (int64_validator r) h =
      Tame-validate_leaf (slice (item x xs)) (int64_validator r) h
  Tame-validate (slice (item x xs)) (other_validator f) h =
      Tame-validate_leaf (slice (item x xs)) (other_validator f) h
  Tame-validate (slice (item x xs)) no_validator h =
      Tame-validate_leaf (slice (item x xs)) no_validator h
  Tame-validate (boolean b) v h = Tame-validate_leaf (boolean b) v h
  Tame-validate (uint64 n) v h = Tame-validate_leaf (uint64 n) v h
  Tame-validate (uint32 n) v h = Tame-validate_leaf (uint32 n) v h
  Tame-validate (int64 n) v h = Tame-validate_leaf (int64 n) v h
  Tame-validate (str s) v h = Tame-validate_leaf (str s) v h
  Tame-validate named v h = Tame-validate_leaf named v h
  Tame-validate nil_pointer v h = Tame-validate_leaf nil_pointer v h
  Tame-validate (pointer nil) v h = Tame-validate_leaf (pointer nil) v h
  Tame-validate (pointer (boolean b)) v h = Tame-validate_leaf (pointer (boolean b)) v h
  Tame-validate (pointer (uint64 n)) v h = Tame-validate_leaf (pointer (uint64 n)) v h
  Tame-validate (pointer (uint32 n)) v h = Tame-validate_leaf (pointer (uint32 n)) v h
  Tame-validate (pointer (int64 n)) v h = Tame-validate_leaf (pointer (int64 n)) v h
  Tame-validate (pointer (str s)) v h = Tame-validate_leaf (pointer (str s)) v h
  Tame-validate (pointer named) v h = Tame-validate_leaf (pointer named) v h
  Tame-validate (pointer nil_slice) v h = Tame-validate_leaf (pointer nil_slice) v h
  Tame-validate (pointer (slice xs)) v h = Tame-validate_leaf (pointer (slice xs)) v h
  Tame-validate (pointer nil_pointer) v h = Tame-validate_leaf (pointer nil_pointer) v h
  Tame-validate (pointer (pointer x)) v h = Tame-validate_leaf (pointer (pointer x)) v h

  Tame-validate_pointed : (x : Any) (v : Validator) → KeepsZero v → Tame (validate_pointed x v)
  Tame-validate_pointed (pointer x) v h = Tame-validate x v h
  Tame-validate_pointed nil v h = tt
  Tame-validate_pointed (boolean b) v h = tt
  Tame-validate_pointed (uint64 n) v h = tt
  Tame-validate_pointed (uint32 n) v h = tt
  Tame-validate_pointed (int64 n) v h = tt
  Tame-validate_pointed (str s) v h = tt
  Tame-validate_pointed named v h = tt
  Tame-validate_pointed nil_slice v h = tt
  Tame-validate_pointed (slice xs) v h = tt
  Tame-validate_pointed nil_pointer v h = tt
  Tame-validate_pointed (struct fs) v h = tt

  Tame-validate_fields :
      (fs : Fields) (vs : Entries) → AllKeepZero vs → Tame (validate_fields fs vs)
  Tame-validate_fields no_field vs h = tt
  Tame-validate_fields (field name tag x fs) vs h =
      let v = validator_of vs (field_name name tag) in
      let k = validator_of-KeepsZero vs (field_name name tag) h in
      Tame-and_then _ _
        (Tame-wrapped _ _
          (Tame-choose_field x v _ _ k (Tame-validate x v k) (Tame-validate_pointed x v k)))
        (Tame-validate_fields fs vs h)

  Tame-validate_elements :
      (xs : Items) (i : ℕ) (v : Validator) → KeepsZero v → Tame (validate_elements xs i v)
  Tame-validate_elements no_item i v h = tt
  Tame-validate_elements (item x xs) i v h =
      Tame-and_then _ _
        (Tame-wrapped _ _
          (Tame-choose_element x v _ _ h (Tame-validate x v h) (Tame-validate_pointed x v h)))
        (Tame-validate_elements xs (i + 1) v h)

-- If no rule for numbers, at any depth of a validator, is optional and unsets zero, then validating
-- panics for no value.
pub validate-never_panics : (x : Any) (v : Validator) → KeepsZero v → validate x v ≢ panicked
validate-never_panics x v h p = subst Tame p (Tame-validate x v h)

-- If an optional rule for uint64s unsets zero, then validating a struct panics where the rule's field
-- is a pointer to 0, whatever the struct's other fields and the form's other rules are, if the field
-- comes first.
pub unset_zero-panics :
    (r : NumberRule ℕ) (name tag : String) (fs : Fields) (optional : Bool) (vs : Entries)
    → r.optional ≡ true
    → r.unset_zero ≡ true
    → validate
        (pointer (struct (field name tag (pointer (uint64 0)) fs)))
        (form_validator optional (entry (field_name name tag) (uint64_validator r) vs))
      ≡ panicked
unfolding validate validator_of validate_leaf validate_uint64 check_number
unset_zero-panics r name tag fs optional vs given unset =
    let fn = field_name name tag in let same = (eq_iff fn fn).1 refl in rw (same, given, unset)
