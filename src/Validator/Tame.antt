-- ===== src/Validator/Tame.antt =====
-- Verdicts that no form turns into a panic, and the validators of scalars.
use mirror_backend.Common.{
  ℕ, String, Bool, true, false, ◌&&◌, Option, none, some, ltb, ◌==◌, str_eq, if◌then◌else◌, ◌≡◌,
  inl, inr, arith, Bool-cases, ℤ,
}
use mirror_backend.Validator.{
  Any, nil, str, boolean, uint64, uint32, int64, named, nil_slice, slice, nil_pointer, pointer,
  struct, ValidateError, not_struct, Verdict, valid, invalid, unset_string, unset_number, panicked,
  verdict_of, when_nil, StringRule, NumberRule, Validator, form_validator, slice_validator,
  string_validator, bool_validator, uint64_validator, uint32_validator, int64_validator,
  other_validator, no_validator, Entries, no_entry, entry, check_text, run_validators,
  validate_string, validate_bool, check_number,
}
use mirror_backend.Validator.Form.{
  validator_of, int_less, int_is_zero, validate_uint64, validate_uint32, validate_int64, is_empty,
  wrapped, written, and_then, check_slice_len, validate_nil, validate_leaf,
}

-- no rule for numbers, at any depth, is optional and unsets zero
abbrev pub KeepsNumber : {N : Type 0} → NumberRule N → Type 0
KeepsNumber r = (r.optional && r.unset_zero) ≡ false

unfoldable mutual
  pub KeepsZero : Validator → Type 0
  KeepsZero (form_validator optional vs) = AllKeepZero vs
  KeepsZero (slice_validator optional min_len max_len v) = KeepsZero v
  KeepsZero (uint64_validator r) = KeepsNumber r
  KeepsZero (uint32_validator r) = KeepsNumber r
  KeepsZero (int64_validator r) = KeepsNumber r
  KeepsZero _ = Unit

  pub AllKeepZero : Entries → Type 0
  AllKeepZero no_entry = Unit
  AllKeepZero (entry key v vs) = KeepsZero v × AllKeepZero vs

-- neither a panic nor a number to unset
abbrev pub Tame : Verdict → Type 0
Tame unset_number = ⊥
Tame panicked = ⊥
Tame _ = Unit

pub Tame-when_nil : (optional : Bool) → Tame (when_nil optional)
Tame-when_nil true = tt
Tame-when_nil false = tt

pub Tame-verdict_of : (o : Option ValidateError) → Tame (verdict_of o)
Tame-verdict_of none = tt
Tame-verdict_of (some e) = tt

pub Tame-if : (b : Bool) (d e : Verdict) → Tame d → Tame e → Tame (if b then d else e)
Tame-if true d e h k = h
Tame-if false d e h k = k

pub Tame-wrapped : (f : ValidateError → ValidateError) (d : Verdict) → Tame d → Tame (wrapped f d)
Tame-wrapped f valid h = tt
Tame-wrapped f (invalid e) h = tt
Tame-wrapped f unset_string h = tt
Tame-wrapped f unset_number h = absurd h
Tame-wrapped f panicked h = absurd h

pub Tame-written : (d : Verdict) → Tame d → Tame (written d)
Tame-written valid h = tt
Tame-written (invalid e) h = tt
Tame-written unset_string h = tt
Tame-written unset_number h = absurd h
Tame-written panicked h = absurd h

pub Tame-and_then : (d e : Verdict) → Tame d → Tame e → Tame (and_then d e)
Tame-and_then valid e h k = k
Tame-and_then (invalid x) e h k = tt
Tame-and_then unset_string e h k = tt
Tame-and_then unset_number e h k = absurd h
Tame-and_then panicked e h k = absurd h

pub Tame-validate_string : (r : StringRule) (x : Any) → Tame (validate_string r x)
unfolding validate_string check_text
Tame-validate_string r nil = Tame-when_nil r.optional
Tame-validate_string r (str s) = ground (arith, Tame-verdict_of (run_validators r.validators s))
Tame-validate_string r (boolean b) = tt
Tame-validate_string r (uint64 n) = tt
Tame-validate_string r (uint32 n) = tt
Tame-validate_string r (int64 n) = tt
Tame-validate_string r named = tt
Tame-validate_string r nil_slice = tt
Tame-validate_string r (slice xs) = tt
Tame-validate_string r nil_pointer = tt
Tame-validate_string r (pointer x) = tt
Tame-validate_string r (struct fs) = tt

pub Tame-check_number :
    {N : Type 0} (less : N → N → Bool) (is_zero : N → Bool) (r : NumberRule N) (n : N)
    → KeepsNumber r
    → Tame (check_number less is_zero r n)
unfolding check_number
Tame-check_number less is_zero r n h =
    ground (arith, Tame-verdict_of (run_validators r.validators n))

pub Tame-validate_uint64 : (r : NumberRule ℕ) (x : Any) → KeepsNumber r → Tame (validate_uint64 r x)
unfolding validate_uint64
Tame-validate_uint64 r nil h = Tame-when_nil r.optional
Tame-validate_uint64 r (boolean b) h = tt
Tame-validate_uint64 r (uint64 n) h = Tame-check_number ltb (λ k. k == 0) r n h
Tame-validate_uint64 r (uint32 n) h = tt
Tame-validate_uint64 r (int64 n) h = tt
Tame-validate_uint64 r (str s) h = tt
Tame-validate_uint64 r named h = tt
Tame-validate_uint64 r nil_slice h = tt
Tame-validate_uint64 r (slice xs) h = tt
Tame-validate_uint64 r nil_pointer h = tt
Tame-validate_uint64 r (pointer x) h = tt
Tame-validate_uint64 r (struct fs) h = tt

pub Tame-validate_uint32 : (r : NumberRule ℕ) (x : Any) → KeepsNumber r → Tame (validate_uint32 r x)
unfolding validate_uint32
Tame-validate_uint32 r nil h = Tame-when_nil r.optional
Tame-validate_uint32 r (boolean b) h = tt
Tame-validate_uint32 r (uint64 n) h = tt
Tame-validate_uint32 r (uint32 n) h = Tame-check_number ltb (λ k. k == 0) r n h
Tame-validate_uint32 r (int64 n) h = tt
Tame-validate_uint32 r (str s) h = tt
Tame-validate_uint32 r named h = tt
Tame-validate_uint32 r nil_slice h = tt
Tame-validate_uint32 r (slice xs) h = tt
Tame-validate_uint32 r nil_pointer h = tt
Tame-validate_uint32 r (pointer x) h = tt
Tame-validate_uint32 r (struct fs) h = tt

pub Tame-validate_int64 : (r : NumberRule ℤ) (x : Any) → KeepsNumber r → Tame (validate_int64 r x)
unfolding validate_int64
Tame-validate_int64 r nil h = Tame-when_nil r.optional
Tame-validate_int64 r (boolean b) h = tt
Tame-validate_int64 r (uint64 n) h = tt
Tame-validate_int64 r (uint32 n) h = tt
Tame-validate_int64 r (int64 n) h = Tame-check_number int_less int_is_zero r n h
Tame-validate_int64 r (str s) h = tt
Tame-validate_int64 r named h = tt
Tame-validate_int64 r nil_slice h = tt
Tame-validate_int64 r (slice xs) h = tt
Tame-validate_int64 r nil_pointer h = tt
Tame-validate_int64 r (pointer x) h = tt
Tame-validate_int64 r (struct fs) h = tt

pub Tame-validate_bool : (optional : Bool) (x : Any) → Tame (validate_bool optional x)
unfolding validate_bool
Tame-validate_bool optional nil = Tame-when_nil optional
Tame-validate_bool optional (boolean b) = tt
Tame-validate_bool optional (uint64 n) = tt
Tame-validate_bool optional (uint32 n) = tt
Tame-validate_bool optional (int64 n) = tt
Tame-validate_bool optional (str s) = tt
Tame-validate_bool optional named = tt
Tame-validate_bool optional nil_slice = tt
Tame-validate_bool optional (slice xs) = tt
Tame-validate_bool optional nil_pointer = tt
Tame-validate_bool optional (pointer x) = tt
Tame-validate_bool optional (struct fs) = tt

pub Tame-validate_nil : (v : Validator) → KeepsZero v → Tame (validate_nil v)
unfolding validate_nil KeepsZero
Tame-validate_nil (form_validator optional vs) h = Tame-when_nil optional
Tame-validate_nil (slice_validator optional min_len max_len v) h = Tame-when_nil optional
Tame-validate_nil (string_validator r) h = Tame-validate_string r nil
Tame-validate_nil (bool_validator optional) h = Tame-validate_bool optional nil
Tame-validate_nil (uint64_validator r) h = Tame-validate_uint64 r nil h
Tame-validate_nil (uint32_validator r) h = Tame-validate_uint32 r nil h
Tame-validate_nil (int64_validator r) h = Tame-validate_int64 r nil h
Tame-validate_nil (other_validator f) h = Tame-verdict_of (f nil)
Tame-validate_nil no_validator h = tt

pub Tame-validate_leaf : (x : Any) (v : Validator) → KeepsZero v → Tame (validate_leaf x v)
unfolding validate_leaf KeepsZero
Tame-validate_leaf x (form_validator optional vs) h =
    Tame-if (is_empty vs) valid (invalid not_struct) tt tt
Tame-validate_leaf x (slice_validator optional min_len max_len v) h = tt
Tame-validate_leaf x (string_validator r) h = Tame-validate_string r x
Tame-validate_leaf x (bool_validator optional) h = Tame-validate_bool optional x
Tame-validate_leaf x (uint64_validator r) h = Tame-validate_uint64 r x h
Tame-validate_leaf x (uint32_validator r) h = Tame-validate_uint32 r x h
Tame-validate_leaf x (int64_validator r) h = Tame-validate_int64 r x h
Tame-validate_leaf x (other_validator f) h = Tame-verdict_of (f x)
Tame-validate_leaf x no_validator h = tt

pub validator_of-KeepsZero :
    (vs : Entries) (fn : String) → AllKeepZero vs → KeepsZero (validator_of vs fn)
unfolding validator_of KeepsZero
validator_of-KeepsZero no_entry fn h = tt
validator_of-KeepsZero (entry key v vs) fn (h, hs) = elim (Bool-cases (str_eq key fn)) [
  | inl same ↦ rw same h
  | inr differ ↦ rw differ (validator_of-KeepsZero vs fn hs)
]

pub Tame-check_slice_len :
    (min_len max_len count : ℕ) (d : Verdict)
    → Tame d
    → Tame (check_slice_len min_len max_len count d)
Tame-check_slice_len min_len max_len count d h = ground arith
