-- ===== src/Goutil/Counts.antt =====
-- How many arguments are given.
use mirror_backend.Common.{
  ℕ, ◌+◌, ◌≤◌, Bool, true, false, List, [], ◌∷◌, ◌==◌, ltb, leb, ◌≡◌, refl, arith,
}
use mirror_backend.Goutil.{
  at_least_one, at_most_one_from, at_most_one, must_have_one_from, must_have_one,
}

-- the number of arguments that are given
abbrev pub given_count : List Bool → ℕ
given_count [] = 0
given_count (true ∷ args) = given_count args + 1
given_count (false ∷ args) = given_count args

at_least_one-given_count : (args : List Bool) → at_least_one args ≡ ltb 0 (given_count args)
unfolding at_least_one
at_least_one-given_count [] = refl
at_least_one-given_count (true ∷ args) = ground arith
at_least_one-given_count (false ∷ args) = at_least_one-given_count args

at_most_one_from-given_count :
    (n : ℕ) (args : List Bool) → n ≤ 1 → at_most_one_from n args ≡ leb (n + given_count args) 1
unfolding at_most_one_from
at_most_one_from-given_count n [] h = ground arith
at_most_one_from-given_count n (true ∷ args) h =
    ground (arith, at_most_one_from-given_count (n + 1) args)
at_most_one_from-given_count n (false ∷ args) h = at_most_one_from-given_count n args h

must_have_one_from-given_count :
    (n : ℕ) (args : List Bool) → n ≤ 1 → must_have_one_from n args ≡ ((n + given_count args) == 1)
unfolding must_have_one_from
must_have_one_from-given_count n [] h = ground arith
must_have_one_from-given_count n (true ∷ args) h =
    ground (arith, must_have_one_from-given_count (n + 1) args)
must_have_one_from-given_count n (false ∷ args) h = must_have_one_from-given_count n args h

-- `AtLeastOne`, `AtMostOne` and `MustHaveOne` tell whether the number of arguments that are not nil
-- is at least, at most and exactly one, though the last two stop at the second such argument.
pub given_arguments :
    (args : List Bool)
    → (at_least_one args ≡ ltb 0 (given_count args))
      × (at_most_one args ≡ leb (given_count args) 1)
      × (must_have_one args ≡ (given_count args == 1))
unfolding at_most_one must_have_one
given_arguments args = (
  at_least_one-given_count args,
  ground (arith, at_most_one_from-given_count 0 args (omega arith)),
  ground (arith, must_have_one_from-given_count 0 args (omega arith)),
)
