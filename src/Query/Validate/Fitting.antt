-- ===== src/Query/Validate/Fitting.antt =====
-- The values that the query validator takes for a tag and an operator.
use mirror_backend.Common.{
  String, true, Option, none, some, ◌∷◌, str_eq, eq_iff, first_error, ◌≡◌, ◌≢◌, ◌⊎◌, ◌↔◌, inl, inr,
  if◌then◌else◌, refl, arith, All, Bool-cases,
}
use mirror_backend.Value.{
  Value, null, boolean, number, text, array, object, Values, end, item, values, Floats, sprint,
}
use mirror_backend.Entity.Tag.{Tag, is_valid_tag_value}
use mirror_backend.Query.{lookup_op_in}
use mirror_backend.Query.Validate.{check_value, check_items, check_array, check_val}

pub first_error_iff :
    {E : Type 0} (a b : Option E) → (first_error a b ≡ none) ↔ ((a ≡ none) × (b ≡ none))
first_error_iff none b = (λ h. (refl, h), λ h. h.1)
first_error_iff (some e) b = (λ h. cc, λ h. cc (h.0))

module _ (floats : Floats) where
  open floats use {Float}

  -- the value has the form that the tag's type wants
  abbrev pub Fits : Tag → Value Float → Type 0
  Fits tag v = is_valid_tag_value floats (some tag) (sprint floats v) ≡ true

  -- `in` wants a non-empty array of such values, and every other operator one such value
  abbrev pub FitsIn : Tag → Value Float → Type 0
  FitsIn tag (array (item v vs)) = All (Fits tag) (v ∷ values vs)
  FitsIn tag _ = ⊥

  abbrev pub FitsOp : Tag → String → Value Float → Type 0
  FitsOp tag op v =
      (v ≢ null) × ((op ≡ lookup_op_in) × FitsIn tag v ⊎ ((op ≢ lookup_op_in) × Fits tag v))

  module _ {E : Type 0} where
    check_value_iff :
        (tag : Tag) (v : Value Float)
        → (check_value floats {E = E} tag (sprint floats v) ≡ none) ↔ Fits tag v
    unfolding check_value
    check_value_iff tag v = ground arith

    check_items_iff :
        (tag : Tag) (vs : Values Float)
        → (check_items floats {E = E} tag vs ≡ none) ↔ All (Fits tag) (values vs)
    unfolding check_items
    check_items_iff tag end = (λ h. tt, λ h. refl)
    check_items_iff tag (item v vs) =
        let (split, join) = first_error_iff (check_value floats {E = E} tag (sprint floats v)) _ in
        let (value_to, value_from) = check_value_iff tag v in
        let (items_to, items_from) = check_items_iff tag vs in
        (
          λ h. (value_to (split h).0, items_to (split h).1),
          λ h. join (value_from h.0, items_from h.1),
        )

    check_array_iff :
        (tag : Tag) (v : Value Float) → (check_array floats {E = E} tag v ≡ none) ↔ FitsIn tag v
    unfolding check_array
    check_array_iff tag (array end) = (λ h. cc, λ h. absurd h)
    check_array_iff tag (array (item v vs)) = check_items_iff tag (item v vs)
    check_array_iff tag null = (λ h. cc, λ h. absurd h)
    check_array_iff tag (boolean b) = (λ h. cc, λ h. absurd h)
    check_array_iff tag (number x) = (λ h. cc, λ h. absurd h)
    check_array_iff tag (text s) = (λ h. cc, λ h. absurd h)
    check_array_iff tag (object ms) = (λ h. cc, λ h. absurd h)

    check_given_iff :
        (tag : Tag) (op : String) (v : Value Float)
        → v ≢ null
        → ((if str_eq op lookup_op_in
              then check_array floats {E = E} tag v
              else check_value floats tag (sprint floats v))
            ≡ none)
          ↔ FitsOp tag op v
    check_given_iff tag op v given = elim (Bool-cases (str_eq op lookup_op_in)) [
      | inl same ↦
          let e = (eq_iff op lookup_op_in).0 same in
          rw same (
            λ h. (given, inl (e, (check_array_iff tag v).0 h)),
            λ h. elim (h.1) [
              | inl (_, fits) ↦ (check_array_iff tag v).1 fits
              | inr (other, _) ↦ absurd (other e)
            ],
          )
      | inr differ ↦
          let e : op ≢ lookup_op_in = λ p. cc (differ, (eq_iff op lookup_op_in).1 p) in
          rw differ (
            λ h. (given, inr (e, (check_value_iff tag v).0 h)),
            λ h. elim (h.1) [
              | inl (same, _) ↦ absurd (e same)
              | inr (_, fits) ↦ (check_value_iff tag v).1 fits
            ],
          )
    ]

    pub check_val_iff :
        (tag : Tag) (op : String) (v : Value Float)
        → (check_val floats {E = E} tag op v ≡ none) ↔ FitsOp tag op v
    unfolding check_val
    check_val_iff tag op null = (λ h. cc, λ h. absurd (h.0 refl))
    check_val_iff tag op (boolean b) = check_given_iff tag op (boolean b) (λ p. cc)
    check_val_iff tag op (number x) = check_given_iff tag op (number x) (λ p. cc)
    check_val_iff tag op (text s) = check_given_iff tag op (text s) (λ p. cc)
    check_val_iff tag op (array vs) = check_given_iff tag op (array vs) (λ p. cc)
    check_val_iff tag op (object ms) = check_given_iff tag op (object ms) (λ p. cc)
