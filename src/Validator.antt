-- ===== src/Validator.antt =====
-- pkg/validator/validator.go: validators of request structs. `Any` holds the Go values that reach a
-- validator, `Verdict` what `Validate` returns, or the panic of `reflect.Value.Set`. All fields of
-- a struct are exported.
pub mod Texts
pub mod Form
pub mod Tame
pub mod Safe
pub mod Requests
pub mod Pagination
use Prim.Native.Char.{code}
use mirror_backend.Common.{
  ℕ, zero, suc, ◌+◌, ◌%◌, ◌^◌, String, Bool, true, false, not, ◌&&◌, Option, none, some, List, [],
  ◌∷◌, ◌==◌, ltb, if◌then◌else◌, str_eq, ℤ, is_some, get_or,
}
use mirror_backend.Text.{split}
use mirror_backend.Text.Splitting.{has_char}

mutual
  -- a value in an interface; `named` is of a named scalar type, which no type assertion here meets
  pub data Any : Type 0 where
    nil : Any
    str : String → Any
    boolean : Bool → Any
    uint64 : ℕ → Any
    uint32 : ℕ → Any
    int64 : ℤ → Any
    named : Any
    nil_slice : Any
    slice : Items → Any
    nil_pointer : Any
    pointer : Any → Any
    struct : Fields → Any

  pub data Items : Type 0 where
    no_item : Items
    item : Any → Items → Items

  -- a field has its name in the struct, its `json` tag and its value
  pub data Fields : Type 0 where
    no_field : Fields
    field : String → String → Any → Fields → Fields

pub data ValidateError : Type 0 where
  required wrong_type empty too_short too_long bad_char below_min above_max not_struct not_slice :
      ValidateError
  custom : String → ValidateError
  empty_message : ValidateError
  in_field : String → ValidateError → ValidateError
  at_index : ℕ → ValidateError → ValidateError

-- `unset_string` and `unset_number` are a `defaultValue` error that holds "" or the int 0
pub data Verdict : Type 0 where
  valid : Verdict
  invalid : ValidateError → Verdict
  unset_string : Verdict
  unset_number : Verdict
  panicked : Verdict

pub record StringRule : Type 0 where
  pub optional : Bool
  pub unset_zero : Bool
  pub min_len : ℕ
  pub max_len : ℕ
  pub charset : String
  pub regex : Option String
  pub validators : List (Option (String → Option ValidateError))

-- UInt64, UInt32 and Int64
pub record NumberRule (N : Type 0) : Type 0 where
  pub optional : Bool
  pub unset_zero : Bool
  pub min : Option N
  pub max : Option N
  pub validators : List (Option (N → Option ValidateError))

mutual
  pub data Validator : Type 0 where
    form_validator : Bool → Entries → Validator
    -- Optional, MinLen, MaxLen
    slice_validator : Bool → ℕ → ℕ → Validator → Validator
    string_validator : StringRule → Validator
    bool_validator : Bool → Validator
    uint64_validator : NumberRule ℕ → Validator
    uint32_validator : NumberRule ℕ → Validator
    int64_validator : NumberRule ℤ → Validator
    -- another implementation of the interface
    other_validator : (Any → Option ValidateError) → Validator
    no_validator : Validator

  -- the map of a form, by field name
  pub data Entries : Type 0 where
    no_entry : Entries
    entry : String → Validator → Entries → Entries

abbrev pub verdict_of : Option ValidateError → Verdict
verdict_of none = valid
verdict_of (some e) = invalid e

-- the loop over the rule's own functions, of which nil ones are skipped
unfoldable pub run_validators :
    {A : Type 0} → List (Option (A → Option ValidateError)) → A → Option ValidateError
run_validators [] a = none
run_validators (none ∷ vs) a = run_validators vs a
run_validators (some v ∷ vs) a =
    let rest = run_validators vs a in elim (v a) [ none ↦ rest | some e ↦ some e ]

abbrev pub when_nil : Bool → Verdict
when_nil optional = if optional then valid else invalid required

-- len([]rune(str))
unfoldable pub rune_count : String → ℕ
rune_count String.[] = 0
rune_count (String.◌∷◌ c s) = suc (rune_count s)

-- every character is one of `charset`
unfoldable pub in_charset : String → String → Bool
in_charset charset String.[] = true
in_charset charset (String.◌∷◌ c s) = has_char (code c) charset && in_charset charset s

unfoldable pub check_text : StringRule → String → Verdict
unfolding rune_count in_charset run_validators
check_text r s =
    let count = rune_count s % 2 ^ 32 in
    if ltb count r.min_len
    then invalid too_short
    else if ltb 0 r.max_len && ltb r.max_len count
    then invalid too_long
    else if not (str_eq r.charset "") && not (in_charset r.charset s)
    then invalid bad_char
    else verdict_of (run_validators r.validators s)

unfoldable pub validate_string : StringRule → Any → Verdict
unfolding check_text
validate_string r nil = when_nil r.optional
validate_string r (str s) =
    if str_eq s ""
    then (if r.optional then (if r.unset_zero then unset_string else valid) else invalid empty)
    else check_text r s
validate_string r _ = invalid wrong_type

unfoldable pub validate_bool : Bool → Any → Verdict
validate_bool optional nil = when_nil optional
validate_bool optional (boolean b) = valid
validate_bool optional _ = invalid wrong_type

-- the part of a number's `Validate` behind the type assertion
module _ {N : Type 0} (less : N → N → Bool) (is_zero : N → Bool) where
  abbrev below : Option N → N → Bool
  below none n = false
  below (some m) n = less n m

  abbrev above : Option N → N → Bool
  above none n = false
  above (some m) n = less m n

  unfoldable pub check_number : NumberRule N → N → Verdict
  unfolding run_validators
  check_number r n =
      if is_zero n
      then (if r.optional then (if r.unset_zero then unset_number else valid) else invalid empty)
      else if below r.min n
      then invalid below_min
      else if above r.max n
      then invalid above_max
      else verdict_of (run_validators r.validators n)
