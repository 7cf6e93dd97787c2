-- ===== src/Query/Validate/Sound.antt =====
-- What the query validator accepts, stated without its order of tests and without its errors.
use mirror_backend.Common.{
  ℕ, ◌+◌, ◌≤◌, Bool, true, false, Option, none, some, List, [], ◌∷◌, eq_iff, get_or, is_some,
  Result, ok, err, ◌≡◌, ◌≢◌, ◌⊎◌, ◌↔◌, inl, inr, sym, refl, arith, All, Bool-cases, eq_of_some,
}
use mirror_backend.Goutil.{contains_str}
use mirror_backend.Value.{Floats}
use mirror_backend.Entity.Tag.{Tag}
use mirror_backend.Query.{
  Lookup, supported_lookup_ops, QueryOp, query_op_and, query_op_or, Query, query, Queries,
  nil_slice, slice, QueryItems, no_more, nil_query, sub_query, is_slice,
}
use mirror_backend.Query.Validate.{
  max_query_depth, first_of_list, check_tag, with_tag_id, validate_lookup, validate_node,
  validate_query, validate_queries, validate_items, validate,
}
use mirror_backend.Query.Validate.Fitting.{FitsOp, first_error_iff, check_val_iff}

module _ (floats : Floats) where
  open floats use {Float}

  module _ {E : Type 0} (get_by_id : ℕ → ℕ → Result E Tag) (tenant_id : ℕ) where
    -- a nil lookup is accepted
    abbrev pub AcceptsLookup : Option (Lookup Float) → Type 0
    AcceptsLookup none = Unit
    AcceptsLookup (some l) =
        (id : ℕ) × (tag : Tag) × (l.tag_id ≡ some id)
        × (get_by_id tenant_id id ≡ ok tag)
        × (contains_str supported_lookup_ops l.op ≡ true)
        × FitsOp floats tag l.op l.val

    check_tag_iff :
        (l : Lookup Float) (r : Result E Tag)
        → (check_tag floats l r ≡ none) ↔ (
            (tag : Tag) × (r ≡ ok tag)
            × (contains_str supported_lookup_ops l.op ≡ true)
            × FitsOp floats tag l.op l.val)
    unfolding check_tag
    check_tag_iff l (err e) = (λ h. cc, λ h. cc (h.1))
    check_tag_iff l (ok tag) = elim (Bool-cases (contains_str supported_lookup_ops l.op)) [
      | inl known ↦ rw known (
        λ h. (tag, refl, refl, (check_val_iff floats tag l.op l.val).0 h),
        λ h.
            (check_val_iff floats tag l.op l.val).1 (let e : h.0 ≡ tag = cc (h.1) in rw e at (h.3)),
      )
      | inr unknown ↦ rw unknown (λ h. cc, λ h. cc (h.2))
    ]

    with_tag_id_iff :
        (l : Lookup Float) (id : Option ℕ)
        → (with_tag_id floats get_by_id tenant_id l id ≡ none) ↔ (
            (i : ℕ) × (tag : Tag) × (id ≡ some i)
            × (get_by_id tenant_id i ≡ ok tag)
            × (contains_str supported_lookup_ops l.op ≡ true)
            × FitsOp floats tag l.op l.val)
    unfolding with_tag_id
    with_tag_id_iff l none = (λ h. cc, λ h. cc (h.2))
    with_tag_id_iff l (some id) =
        let (to, from) = check_tag_iff l (get_by_id tenant_id id) in
        (
          λ h. let (tag, found, op, fits) = to h in (id, tag, refl, found, op, fits),
          λ h. let e : h.0 ≡ id = eq_of_some (sym h.2) in from (h.1, rw e at (h.3), h.4, h.5),
        )

    validate_lookup_iff :
        (l : Option (Lookup Float))
        → (validate_lookup floats get_by_id tenant_id l ≡ none) ↔ AcceptsLookup l
    unfolding validate_lookup
    validate_lookup_iff none = (λ h. tt, λ h. refl)
    validate_lookup_iff (some l) = with_tag_id_iff l l.tag_id

    validate_lookups_iff :
        (ls : List (Option (Lookup Float)))
        → (first_of_list (validate_lookup floats get_by_id tenant_id) ls ≡ none)
          ↔ All AcceptsLookup ls
    validate_lookups_iff [] = (λ h. tt, λ h. refl)
    validate_lookups_iff (l ∷ ls) =
        let (split, join) = first_error_iff (validate_lookup floats get_by_id tenant_id l) _ in
        (
          λ h. ((validate_lookup_iff l).0 (split h).0, (validate_lookups_iff ls).0 (split h).1),
          λ h. join ((validate_lookup_iff l).1 h.0, (validate_lookups_iff ls).1 h.1),
        )

    -- exactly one of the two slices is given, and the operator is AND or OR
    abbrev pub AcceptsNode : ℕ → Bool → Bool → QueryOp → Type 0
    AcceptsNode depth has_queries has_lookups op =
        (depth ≤ max_query_depth)
        × (has_queries ≢ has_lookups)
        × ((op ≡ query_op_and) ⊎ (op ≡ query_op_or))

    validate_node_iff :
        (depth : ℕ) (has_queries has_lookups : Bool) (op : QueryOp)
        → (validate_node floats get_by_id tenant_id depth has_queries has_lookups op ≡ none)
          ↔ AcceptsNode depth has_queries has_lookups op
    unfolding validate_node
    validate_node_iff depth true true op =
        (λ h. ground arith, λ h. ground (arith, eq_iff op "AND", eq_iff op "OR"))
    validate_node_iff depth true false op = (
      λ h. ground (arith, eq_iff op "AND", eq_iff op "OR"),
      λ h. ground (arith, eq_iff op "AND", eq_iff op "OR"),
    )
    validate_node_iff depth false true op = (
      λ h. ground (arith, eq_iff op "AND", eq_iff op "OR"),
      λ h. ground (arith, eq_iff op "AND", eq_iff op "OR"),
    )
    validate_node_iff depth false false op =
        (λ h. ground arith, λ h. ground (arith, eq_iff op "AND", eq_iff op "OR"))

    unfoldable mutual
      pub Accepts : Query Float → ℕ → Type 0
      Accepts (query lookups queries op negated) depth =
          AcceptsNode depth (is_slice queries) (is_some lookups) op
          × AcceptsQueries queries depth
          × All AcceptsLookup (get_or [] lookups)

      pub AcceptsQueries : Queries Float → ℕ → Type 0
      AcceptsQueries nil_slice depth = Unit
      AcceptsQueries (slice qs) depth = AcceptsItems qs depth

      pub AcceptsItems : QueryItems Float → ℕ → Type 0
      AcceptsItems no_more depth = Unit
      AcceptsItems (nil_query qs) depth = AcceptsItems qs depth
      AcceptsItems (sub_query q qs) depth = Accepts q (depth + 1) × AcceptsItems qs depth

    mutual
      unfolding validate_query Accepts

      validate_query_iff :
          (q : Query Float) (depth : ℕ)
          → (validate_query floats get_by_id tenant_id q depth ≡ none) ↔ Accepts q depth
      validate_query_iff (query lookups queries op negated) depth =
          let (split, join) =
            first_error_iff
              (validate_node floats get_by_id tenant_id depth (is_slice queries) (is_some lookups)
                op)
              _ in
          let (split', join') =
            first_error_iff (validate_queries floats get_by_id tenant_id queries depth) _ in
          let (node_to, node_from) =
            validate_node_iff depth (is_slice queries) (is_some lookups) op in
          let (queries_to, queries_from) = validate_queries_iff queries depth in
          let (lookups_to, lookups_from) = validate_lookups_iff (get_or [] lookups) in
          (
            λ h. (
              node_to (split h).0,
              queries_to (split' (split h).1).0,
              lookups_to (split' (split h).1).1,
            ),
            λ h. join (node_from h.0, join' (queries_from h.1, lookups_from h.2)),
          )

      validate_queries_iff :
          (qs : Queries Float) (depth : ℕ)
          → (validate_queries floats get_by_id tenant_id qs depth ≡ none) ↔ AcceptsQueries qs depth
      validate_queries_iff nil_slice depth = (λ h. tt, λ h. refl)
      validate_queries_iff (slice qs) depth = validate_items_iff qs depth

      validate_items_iff :
          (qs : QueryItems Float) (depth : ℕ)
          → (validate_items floats get_by_id tenant_id qs depth ≡ none) ↔ AcceptsItems qs depth
      validate_items_iff no_more depth = (λ h. tt, λ h. refl)
      validate_items_iff (nil_query qs) depth = validate_items_iff qs depth
      validate_items_iff (sub_query q qs) depth =
          let (split, join) =
            first_error_iff (validate_query floats get_by_id tenant_id q (depth + 1)) _ in
          let (query_to, query_from) = validate_query_iff q (depth + 1) in
          let (items_to, items_from) = validate_items_iff qs depth in
          (
            λ h. (query_to (split h).0, items_to (split h).1),
            λ h. join (query_from h.0, items_from h.1),
          )

-- A query passes the validator exactly when every query of the tree is at depth 5 at most, has
-- either lookups or sub-queries and an operator AND or OR, and every lookup that is not nil names a
-- tag of the tenant, has a supported operator, and a value, or for `in` a non-empty array of
-- values, that the tag accepts.
pub validate_iff :
    (floats : Floats) {E : Type 0} (get_by_id : ℕ → ℕ → Result E Tag) (tenant_id : ℕ)
    (optional : Bool) (q : Query floats.Float)
    → (validate floats get_by_id tenant_id optional (some q) ≡ none)
      ↔ Accepts floats get_by_id tenant_id q 0
unfolding validate
validate_iff floats get_by_id tenant_id optional q =
    validate_query_iff floats get_by_id tenant_id q 0
