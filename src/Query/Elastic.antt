-- ===== src/Query/Elastic.antt =====
-- `buildElasticQuery` and `getTagField` of repo/query.go. A clause is the JSON object that the code
-- builds from maps; `no_clause` is the nil map that a lookup with an unknown operator leaves. The
-- outer option of a result is `none` where the code panics at a nil pointer, and the inner one is
-- `none` where it returns nil.
pub mod Meaning
pub mod Returns
pub mod Formed
pub mod Accepted
use Prim.Native.String.{◌++◌}
use mirror_backend.Common.{
  ℕ, String, Bool, true, false, ◌&&◌, Option, none, some, List, [], ◌∷◌, if◌then◌else◌, str_eq,
  get_or, ◌>>=◌,
}
use mirror_backend.Text.{show}
use mirror_backend.Value.{Value}
use mirror_backend.Query.{
  Lookup, LookupOp, lookup_op_eq, lookup_op_gt, lookup_op_lt, lookup_op_gte, lookup_op_lte,
  lookup_op_in, QueryOp, query_op_or, Query, query, Queries, nil_slice, slice, QueryItems, no_more,
  nil_query, sub_query,
}

pub data Bound : Type 0 where
  gt lt gte lte : Bound

mutual
  pub data Clause (F : Type 0) : Type 0 where
    term : String → Value F → Clause F
    range : String → Bound → Value F → Clause F
    terms : String → Value F → Clause F
    must_not : Clause F → Clause F
    should : Clauses F → Clause F
    must : Clauses F → Clause F
    no_clause : Clause F

  pub data Clauses (F : Type 0) : Type 0 where
    nil : Clauses F
    clause : Clause F → Clauses F → Clauses F

unfoldable pub get_tag_field : ℕ → String
get_tag_field tag_id = "tag_" ++ show tag_id

module _ {F : Type 0} where
  abbrev pub append_clauses : Clauses F → Clauses F → Clauses F
  append_clauses nil ds = ds
  append_clauses (clause c cs) ds = clause c (append_clauses cs ds)

  abbrev pub maybe_clause : Option (Clause F) → Clauses F → Clauses F
  maybe_clause none cs = cs
  maybe_clause (some c) cs = clause c cs

  -- the switch on the operator
  unfoldable pub op_clause : LookupOp → String → Value F → Clause F
  op_clause op field val =
      if str_eq op lookup_op_eq
      then term field val
      else if str_eq op lookup_op_gt
      then range field gt val
      else if str_eq op lookup_op_lt
      then range field lt val
      else if str_eq op lookup_op_gte
      then range field gte val
      else if str_eq op lookup_op_lte
      then range field lte val
      else if str_eq op lookup_op_in
      then terms field val
      else no_clause

  abbrev pub negate_if : Option Bool → Clause F → Clause F
  negate_if negated c = if get_or false negated then must_not c else c

  unfoldable pub build_lookup : Lookup F → Clause F
  unfolding op_clause
  build_lookup l = negate_if l.negated (op_clause l.op (get_tag_field (get_or 0 l.tag_id)) l.val)

  -- a nil lookup is dereferenced
  unfoldable pub build_lookups : List (Option (Lookup F)) → Option (Clauses F)
  build_lookups [] = some nil
  build_lookups (none ∷ ls) = none
  build_lookups (some l ∷ ls) = do cs ← build_lookups ls; some (clause (build_lookup l) cs)

  unfoldable pub combine : QueryOp → Option Bool → Clauses F → Option (Clause F)
  combine op negated nil = none
  combine op negated cs =
      some (negate_if negated (if str_eq op query_op_or then should cs else must cs))

  unfoldable mutual
    pub build_elastic_query : Query F → Option (Option (Clause F))
    build_elastic_query (query lookups queries op negated) = do
      cs ← build_lookups (get_or [] lookups)
      ds ← build_queries queries
      some (combine op negated (append_clauses cs ds))

    pub build_queries : Queries F → Option (Clauses F)
    build_queries nil_slice = some nil
    build_queries (slice qs) = build_items qs

    pub build_items : QueryItems F → Option (Clauses F)
    build_items no_more = some nil
    build_items (nil_query qs) = none
    build_items (sub_query q qs) = do
      c ← build_elastic_query q
      cs ← build_items qs
      some (maybe_clause c cs)
