-- ===== src/Query/Validate.antt =====
-- The query validator of handler/validator.go. An error is an option whose `none` is nil. The tag
-- repository is the argument `get_by_id`.
pub mod Fitting
pub mod Sound
use mirror_backend.Common.{
  ℕ, suc, ◌+◌, String, Bool, true, false, not, ◌||◌, Option, none, some, List, [], ◌∷◌, ◌==◌, ltb,
  if◌then◌else◌, str_eq, get_or, is_some, Result, ok, err, first_error,
}
use mirror_backend.Goutil.{contains_str, must_have_one}
use mirror_backend.Value.{Value, null, array, Values, end, item, Floats, sprint}
use mirror_backend.Entity.Tag.{Tag, is_valid_tag_value}
use mirror_backend.Query.{
  Lookup, lookup_op_in, supported_lookup_ops, QueryOp, query_op_and, query_op_or, Query, query,
  Queries, nil_slice, slice, QueryItems, no_more, nil_query, sub_query, is_slice,
}

abbrev pub max_query_depth : ℕ
max_query_depth = 5

pub data QueryError (E : Type 0) : Type 0 where
  missing_query : QueryError E
  query_depth : QueryError E
  both_queries_and_lookups : QueryError E
  invalid_query_op : QueryError E
  missing_tag_id : QueryError E
  repo_error : E → QueryError E
  invalid_lookup_op : QueryError E
  missing_val : QueryError E
  in_expects_array : QueryError E
  in_expects_non_empty : QueryError E
  invalid_tag_value : QueryError E

-- a loop over a slice that returns the first error
abbrev pub first_of_list : {A E : Type 0} → (A → Option E) → List A → Option E
first_of_list f [] = none
first_of_list f (x ∷ xs) = first_error (f x) (first_of_list f xs)

module _ (floats : Floats) where
  open floats use {Float}

  module _ {E : Type 0} where
    check_value : Tag → String → Option (QueryError E)
    check_value tag v =
        if is_valid_tag_value floats (some tag) v then none else some invalid_tag_value

    check_items : Tag → Values Float → Option (QueryError E)
    unfolding check_value
    check_items tag end = none
    check_items tag (item v vs) =
        first_error (check_value tag (sprint floats v)) (check_items tag vs)

    check_array : Tag → Value Float → Option (QueryError E)
    unfolding check_items
    check_array tag (array end) = some in_expects_non_empty
    check_array tag (array vs) = check_items tag vs
    check_array tag _ = some in_expects_array

    pub check_val : Tag → String → Value Float → Option (QueryError E)
    unfolding check_value check_array
    check_val tag op null = some missing_val
    check_val tag op v =
        if str_eq op lookup_op_in then check_array tag v else check_value tag (sprint floats v)

    check_tag : Lookup Float → Result E Tag → Option (QueryError E)
    unfolding check_val
    check_tag l (err e) = some (repo_error e)
    check_tag l (ok tag) =
        if contains_str supported_lookup_ops l.op
        then check_val tag l.op l.val
        else some invalid_lookup_op

  module _ {E : Type 0} (get_by_id : ℕ → ℕ → Result E Tag) (tenant_id : ℕ) where
    with_tag_id : Lookup Float → Option ℕ → Option (QueryError E)
    unfolding check_tag
    with_tag_id l none = some missing_tag_id
    with_tag_id l (some id) = check_tag l (get_by_id tenant_id id)

    unfoldable pub validate_lookup : Option (Lookup Float) → Option (QueryError E)
    unfolding with_tag_id
    validate_lookup none = none
    validate_lookup (some l) = with_tag_id l l.tag_id

    -- the tests of `validateQuery` before its loops
    validate_node : ℕ → Bool → Bool → QueryOp → Option (QueryError E)
    unfolding must_have_one
    validate_node depth has_queries has_lookups op =
        if ltb max_query_depth depth
        then some query_depth
        else if not (must_have_one (has_queries ∷ has_lookups ∷ []))
        then some both_queries_and_lookups
        else if not (str_eq op query_op_and || str_eq op query_op_or)
        then some invalid_query_op
        else none

    unfoldable mutual
      unfolding validate_node validate_lookup

      pub validate_query : Query Float → ℕ → Option (QueryError E)
      validate_query (query lookups queries op negated) depth =
          first_error (validate_node depth (is_slice queries) (is_some lookups) op) (
            first_error (validate_queries queries depth)
              (first_of_list validate_lookup (get_or [] lookups)))

      pub validate_queries : Queries Float → ℕ → Option (QueryError E)
      validate_queries nil_slice depth = none
      validate_queries (slice qs) depth = validate_items qs depth

      pub validate_items : QueryItems Float → ℕ → Option (QueryError E)
      validate_items no_more depth = none
      validate_items (nil_query qs) depth = validate_items qs depth
      validate_items (sub_query q qs) depth =
          first_error (validate_query q (depth + 1)) (validate_items qs depth)

    unfoldable pub validate : Bool → Option (Query Float) → Option (QueryError E)
    validate optional none = if optional then none else some missing_query
    validate optional (some q) = validate_query q 0
