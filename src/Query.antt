-- ===== src/Query.antt =====
-- entity/segment.go: the criteria of a segment, a tree of lookups. A slice is nil or holds
-- pointers, each of which may be nil, as `encoding/json` decodes it.
pub mod Validate
pub mod Elastic
use mirror_backend.Common.{ℕ, String, Bool, false, true, Option, none, some, List, [], ◌∷◌, get_or}
use mirror_backend.Value.{Value, null}

abbrev pub LookupOp : Type 0
LookupOp = String

abbrev pub lookup_op_eq : LookupOp
lookup_op_eq = "="

abbrev pub lookup_op_gt : LookupOp
lookup_op_gt = ">"

abbrev pub lookup_op_lt : LookupOp
lookup_op_lt = "<"

abbrev pub lookup_op_gte : LookupOp
lookup_op_gte = ">="

abbrev pub lookup_op_lte : LookupOp
lookup_op_lte = "<="

abbrev pub lookup_op_in : LookupOp
lookup_op_in = "in"

abbrev pub supported_lookup_ops : List LookupOp
supported_lookup_ops =
    lookup_op_eq ∷ lookup_op_gt ∷ lookup_op_lt ∷ lookup_op_gte ∷ lookup_op_lte ∷ lookup_op_in ∷ []

abbrev pub QueryOp : Type 0
QueryOp = String

abbrev pub query_op_and : QueryOp
query_op_and = "AND"

abbrev pub query_op_or : QueryOp
query_op_or = "OR"

-- the field `Not` is `negated`, and `Val` is `null` where it is nil
pub record Lookup (F : Type 0) : Type 0 where
  pub tag_id : Option ℕ
  pub op : LookupOp
  pub negated : Option Bool
  pub val : Value F

mutual
  -- the fields Lookups, Queries, Op and Not
  pub data Query (F : Type 0) : Type 0 where
    query : Option (List (Option (Lookup F))) → Queries F → QueryOp → Option Bool → Query F

  pub data Queries (F : Type 0) : Type 0 where
    nil_slice : Queries F
    slice : QueryItems F → Queries F

  pub data QueryItems (F : Type 0) : Type 0 where
    no_more : QueryItems F
    nil_query : QueryItems F → QueryItems F
    sub_query : Query F → QueryItems F → QueryItems F

abbrev pub is_slice : {F : Type 0} → Queries F → Bool
is_slice nil_slice = false
is_slice (slice qs) = true
