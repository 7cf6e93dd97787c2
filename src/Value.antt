-- ===== src/Value.antt =====
-- Go's `interface{}` values as `encoding/json` decodes them, and `fmt.Sprint` of one. The kernel has
-- no floats: `float64`, its printing and parsing, and the printing of a map are parameters.
use Prim.Native.String.{◌++◌}
use mirror_backend.Common.{String, Bool, true, false, Option, List, [], ◌∷◌}

mutual
  pub data Value (F : Type 0) : Type 0 where
    null : Value F
    boolean : Bool → Value F
    number : F → Value F
    text : String → Value F
    array : Values F → Value F
    object : Members F → Value F

  pub data Values (F : Type 0) : Type 0 where
    end : Values F
    item : Value F → Values F → Values F

  pub data Members (F : Type 0) : Type 0 where
    done : Members F
    member : String → Value F → Members F → Members F

pub record Floats : Type 1 where
  pub Float : Type 0
  pub print_float : Float → String
  pub print_map : Members Float → String
  pub parse_float : String → Option Float

abbrev pub values : {F : Type 0} → Values F → List (Value F)
values end = []
values (item v vs) = v ∷ values vs

module _ (floats : Floats) where
  open floats use {Float, print_float, print_map}

  -- fmt.Sprint(v)
  unfoldable mutual
    pub sprint : Value Float → String
    sprint null = "<nil>"
    sprint (boolean true) = "true"
    sprint (boolean false) = "false"
    sprint (number x) = print_float x
    sprint (text s) = s
    sprint (array vs) = "[" ++ (sprint_items vs ++ "]")
    sprint (object ms) = print_map ms

    pub sprint_items : Values Float → String
    sprint_items end = ""
    sprint_items (item v vs) = sprint v ++ sprint_rest vs

    pub sprint_rest : Values Float → String
    sprint_rest end = ""
    sprint_rest (item v vs) = " " ++ (sprint v ++ sprint_rest vs)
