-- ===== src/Validator/Texts.antt =====
-- What the validator of strings accepts.
use mirror_backend.Common.{
  ◌%◌, ◌^◌, ◌≤◌, String, true, false, Option, none, some, List, [], ◌∷◌, str_eq, eq_iff, ◌≡◌, ◌≢◌,
  ◌⊎◌, ◌↔◌, inl, inr, refl, arith, Bool-cases, Option-cases,
}
use mirror_backend.Validator.{
  Any, nil, str, boolean, uint64, uint32, int64, named, nil_slice, slice, nil_pointer, pointer,
  struct, ValidateError, valid, verdict_of, StringRule, run_validators, rune_count, in_charset,
  check_text, validate_string,
}

abbrev pub PassesAll : {A : Type 0} → List (Option (A → Option ValidateError)) → A → Type 0
PassesAll [] a = Unit
PassesAll (none ∷ vs) a = PassesAll vs a
PassesAll (some v ∷ vs) a = (v a ≡ none) × PassesAll vs a

-- the number of characters, as a uint32, is in the rule's bounds, of which 0 is no upper bound; the
-- characters are in its charset, if it has one; and its functions pass
pub record Fits (r : StringRule) (s : String) : Type 0 where
  pub long_enough : r.min_len ≤ rune_count s % 2 ^ 32
  pub short_enough : (r.max_len ≡ 0) ⊎ (rune_count s % 2 ^ 32 ≤ r.max_len)
  pub chars : (r.charset ≡ "") ⊎ (in_charset r.charset s ≡ true)
  pub passes : PassesAll r.validators s

abbrev pub Accepts : StringRule → Any → Type 0
Accepts r nil = r.optional ≡ true
Accepts r (str s) = (s ≡ "") × (r.optional ≡ true) × (r.unset_zero ≡ false) ⊎ ((s ≢ "") × Fits r s)
Accepts r _ = ⊥

run_validators_iff :
    {A : Type 0} (vs : List (Option (A → Option ValidateError))) (a : A)
    → (run_validators vs a ≡ none) ↔ PassesAll vs a
unfolding run_validators
run_validators_iff [] a = (λ h. tt, λ h. refl)
run_validators_iff (none ∷ vs) a = run_validators_iff vs a
run_validators_iff (some v ∷ vs) a =
    let (to, from) = run_validators_iff vs a in
    elim (Option-cases (v a)) [
      | inl passed ↦ rw passed (λ h. (refl, to h), λ h. from h.1)
      | inr (e, failed) ↦ rw failed (λ h. cc, λ h. cc (h.0))
    ]

verdict_of_iff : (o : Option ValidateError) → (verdict_of o ≡ valid) ↔ (o ≡ none)
verdict_of_iff none = (λ h. refl, λ h. refl)
verdict_of_iff (some e) = (λ h. cc, λ h. cc)

check_text_iff : (r : StringRule) (s : String) → (check_text r s ≡ valid) ↔ Fits r s
unfolding check_text
check_text_iff r s =
    let (to, from) = run_validators_iff r.validators s in
    let (to', from') = verdict_of_iff (run_validators r.validators s) in
    (
      λ h. record {
        long_enough = ground arith;
        short_enough = ground arith;
        chars = ground (arith, eq_iff r.charset "");
        passes = to (to' (ground arith));
      },
      λ h. ground (arith, eq_iff r.charset "", from' (from h.passes)),
    )

-- For a nil the validator of strings returns no error exactly if the field is optional; for "" if
-- it is and zero is not to be unset; for another string if it fits the rule's bounds on its length,
-- its charset and its functions, whatever the rule's regular expression, which the validator does
-- not read; and for a value of another type never.
pub validate_string_iff : (r : StringRule) (x : Any) → (validate_string r x ≡ valid) ↔ Accepts r x
unfolding validate_string
validate_string_iff r nil = ground arith
validate_string_iff r (str s) = elim (Bool-cases (str_eq s "")) [
  | inl same ↦
      let e = (eq_iff s "").0 same in
      rw same (
        λ h. inl (e, ground arith, ground arith),
        λ h. elim h [ inl (_, given, kept) ↦ rw (given, kept) | inr (other, _) ↦ absurd (other e) ],
      )
  | inr differ ↦
      let e : s ≢ "" = λ p. cc (differ, (eq_iff s "").1 p) in
      rw differ (
        λ h. inr (e, (check_text_iff r s).0 h),
        λ h. elim h [
          | inl (same, _, _) ↦ absurd (e same)
          | inr (_, fits) ↦ (check_text_iff r s).1 fits
        ],
      )
]
validate_string_iff r (boolean b) = (λ h. cc, λ h. absurd h)
validate_string_iff r (uint64 n) = (λ h. cc, λ h. absurd h)
validate_string_iff r (uint32 n) = (λ h. cc, λ h. absurd h)
validate_string_iff r (int64 n) = (λ h. cc, λ h. absurd h)
validate_string_iff r named = (λ h. cc, λ h. absurd h)
validate_string_iff r nil_slice = (λ h. cc, λ h. absurd h)
validate_string_iff r (slice xs) = (λ h. cc, λ h. absurd h)
validate_string_iff r nil_pointer = (λ h. cc, λ h. absurd h)
validate_string_iff r (pointer x) = (λ h. cc, λ h. absurd h)
validate_string_iff r (struct fs) = (λ h. cc, λ h. absurd h)
