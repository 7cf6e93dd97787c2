-- ===== src/Goutil/Sorting.antt =====
-- `IsStrArrEqual` of pkg/goutil/util.go, with `sort.Strings`: Go compares strings by their bytes,
-- which for UTF-8 is by their characters.
pub mod Counts
pub mod Order
pub mod Sorted
use Prim.Native.Char.{code}
use mirror_backend.Common.{
  String, Bool, true, false, ◌&&◌, List, [], ◌∷◌, ◌==◌, ltb, if◌then◌else◌, str_eq, length,
}

-- s <= t
unfoldable pub str_leb : String → String → Bool
str_leb String.[] t = true
str_leb (String.◌∷◌ c s) String.[] = false
str_leb (String.◌∷◌ c s) (String.◌∷◌ d t) =
    let rest = str_leb s t in
    if ltb (code c) (code d) then true else if code c == code d then rest else false

unfoldable pub insert : String → List String → List String
unfolding str_leb
insert s [] = s ∷ []
insert s (t ∷ ts) = let rest = insert s ts in if str_leb s t then s ∷ t ∷ ts else t ∷ rest

unfoldable pub sort_strings : List String → List String
unfolding insert
sort_strings [] = []
sort_strings (s ∷ ss) = insert s (sort_strings ss)

-- reflect.DeepEqual of two slices
unfoldable pub deep_equal : List String → List String → Bool
deep_equal [] [] = true
deep_equal [] (t ∷ ts) = false
deep_equal (s ∷ ss) [] = false
deep_equal (s ∷ ss) (t ∷ ts) = str_eq s t && deep_equal ss ts

unfoldable pub is_str_arr_equal : List String → List String → Bool
unfolding sort_strings deep_equal
is_str_arr_equal a b =
    if length a == length b then deep_equal (sort_strings a) (sort_strings b) else false
