-- ===== src/Repo/Filter.antt =====
-- repo/filter.go: a filter's conditions as the text and the arguments of an SQL condition. A value
-- is of a type that the filter's user chooses; `none` is one that `goutil.IsNil` calls nil.
pub mod Joined
pub mod Holes
use Prim.Native.String.{◌++◌}
use mirror_backend.Common.{
  ℕ, ◌+◌, ◌-◌, String, Bool, not, ◌&&◌, Option, none, some, List, [], ◌∷◌, ◌==◌, ltb, str_eq,
  if◌then◌else◌, length,
}

abbrev pub LogicalOp : Type 0
LogicalOp = String

abbrev pub logical_op_and : LogicalOp
logical_op_and = "AND"

pub record Condition (A : Type 0) : Type 0 where
  pub column : String
  pub op : String
  pub value : Option A
  pub next_logical_op : LogicalOp
  pub open_bracket : Bool
  pub close_bracket : Bool

module _ {A : Type 0} where
  -- `subSql` up to the closing bracket
  unfoldable pub sub_sql : Condition A → String
  sub_sql c =
      (if c.open_bracket then "(" else "")
      ++ (c.column ++ (" " ++ (c.op ++ (" ?" ++ (if c.close_bracket then ")" else "")))))

  unfoldable pub logical_op : Condition A → LogicalOp
  logical_op c = if str_eq c.next_logical_op "" then logical_op_and else c.next_logical_op

  unfoldable pub separator : Condition A → String
  unfolding logical_op
  separator c = " " ++ (logical_op c ++ " ")

  -- the loop from condition `i` on, where `size` is `len(f.Conditions)`
  unfoldable pub to_sql_from : ℕ → ℕ → List (Option (Condition A)) → String × List A
  unfolding sub_sql separator
  to_sql_from size i [] = ("", [])
  to_sql_from size i (none ∷ cs) = to_sql_from size (i + 1) cs
  to_sql_from size i (some c ∷ cs) =
      let (sql, args) = to_sql_from size (i + 1) cs in
      elim (c.value) [
        | none ↦ (sql, args)
        | some v ↦ (
          sub_sql c ++ ((if ltb 1 size && not (i == (size - 1)) then separator c else "") ++ sql),
          v ∷ args,
        )
      ]

  unfoldable pub to_sql_with_args : List (Option (Condition A)) → String × List A
  unfolding to_sql_from
  to_sql_with_args cs = to_sql_from (length cs) 0 cs
