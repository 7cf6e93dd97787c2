-- ===== src/Goutil.antt =====
-- pkg/goutil/util.go and pkg/goutil/ptr.go: helpers on lists of strings, and tests on how many of
-- several arguments are given.
pub mod Sorting
pub mod Counts
pub mod Duplicates
pub mod Members
use mirror_backend.Common.{
  ℕ, ◌+◌, String, Bool, true, false, List, [], ◌∷◌, ◌++◌, ◌==◌, ltb, if◌then◌else◌, str_eq,
}

unfoldable pub contains_str : List String → String → Bool
contains_str [] s = false
contains_str (v ∷ vs) s = let rest = contains_str vs s in if str_eq v s then true else rest

-- An argument is given where it is not nil: the arguments are those tests.
unfoldable pub at_least_one : List Bool → Bool
at_least_one [] = false
at_least_one (given ∷ args) = let rest = at_least_one args in if given then true else rest

at_most_one_from : ℕ → List Bool → Bool
at_most_one_from none_nil [] = true
at_most_one_from none_nil (given ∷ args) =
    let more = at_most_one_from (none_nil + 1) args in
    let rest = at_most_one_from none_nil args in
    if given then (if ltb 1 (none_nil + 1) then false else more) else rest

unfoldable pub at_most_one : List Bool → Bool
unfolding at_most_one_from
at_most_one args = at_most_one_from 0 args

must_have_one_from : ℕ → List Bool → Bool
must_have_one_from none_nil [] = none_nil == 1
must_have_one_from none_nil (given ∷ args) =
    let more = must_have_one_from (none_nil + 1) args in
    let rest = must_have_one_from none_nil args in
    if given then (if ltb 1 (none_nil + 1) then false else more) else rest

unfoldable pub must_have_one : List Bool → Bool
unfolding must_have_one_from
must_have_one args = must_have_one_from 0 args

-- the loop of `RemoveStrDuplicates`: `m` holds the strings met, `result` those kept
remove_from : List String → List String → List String → List String
remove_from m result [] = result
remove_from m result (v ∷ vs) =
    let again = remove_from m result vs in
    let fresh = remove_from (v ∷ m) (result ++ v ∷ []) vs in
    if contains_str m v then again else fresh

unfoldable pub remove_str_duplicates : List String → List String
unfolding remove_from contains_str
remove_str_duplicates elems = remove_from [] [] elems
