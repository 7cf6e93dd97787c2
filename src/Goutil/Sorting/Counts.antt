-- ===== src/Goutil/Sorting/Counts.antt =====
-- How often a string is in a list that `IsStrArrEqual` has sorted or compared.
use mirror_backend.Common.{
  ℕ, ◌+◌, String, true, false, ◌&&◌, List, [], ◌∷◌, ◌==◌, if◌then◌else◌, str_eq, eq_iff, length,
  ◌≡◌, refl, sym, ap, ◌∙◌, arith, Bool-cases, inl, inr,
}
use mathlib.Core.Path.{ap₂}
use mirror_backend.Goutil.Sorting.{str_leb, insert, sort_strings, deep_equal, is_str_arr_equal}

abbrev pub count : String → List String → ℕ
count s [] = 0
count s (t ∷ ts) = (if str_eq s t then 1 else 0) + count s ts

-- the same strings, each as often
abbrev pub SameStrings : List String → List String → Type 0
SameStrings xs ys = (s : String) → count s xs ≡ count s ys

count-insert :
    (s t : String) (l : List String)
    → count s (insert t l) ≡ (if str_eq s t then 1 else 0) + count s l
unfolding insert
count-insert s t [] = refl
count-insert s t (u ∷ us) = elim (Bool-cases (str_leb t u)) [
  | inl below ↦ rw below refl
  | inr above ↦ rw above (omega (arith, count-insert s t us))
]

pub count-sort_strings : (s : String) (l : List String) → count s (sort_strings l) ≡ count s l
unfolding sort_strings
count-sort_strings s [] = refl
count-sort_strings s (t ∷ ts) =
    count-insert s t (sort_strings ts)
    ∙ ap (λ n. (if str_eq s t then 1 else 0) + n) (count-sort_strings s ts)

deep_equal-eq : (xs ys : List String) → deep_equal xs ys ≡ true → xs ≡ ys
unfolding deep_equal
deep_equal-eq [] [] h = refl
deep_equal-eq [] (b ∷ ys) h = absurd cc
deep_equal-eq (a ∷ xs) [] h = absurd cc
deep_equal-eq (a ∷ xs) (b ∷ ys) h = elim (Bool-cases (str_eq a b)) [
  | inl same ↦
      ap₂ ◌∷◌ ((eq_iff a b).0 same)
        (deep_equal-eq xs ys (ap (λ x. x && deep_equal xs ys) (sym same) ∙ h))
  | inr differ ↦ absurd cc
]

-- Lists that `IsStrArrEqual` takes for equal hold the same strings, each as often.
pub is_str_arr_equal-SameStrings :
    (xs ys : List String) → is_str_arr_equal xs ys ≡ true → SameStrings xs ys
unfolding is_str_arr_equal
is_str_arr_equal-SameStrings xs ys h s = elim (Bool-cases (length xs == length ys)) [
  | inl same ↦
      let equal : deep_equal (sort_strings xs) (sort_strings ys) ≡ true =
        ap (λ b. if b then deep_equal (sort_strings xs) (sort_strings ys) else false) (sym same)
        ∙ h in
      sym (count-sort_strings s xs)
      ∙ ap (count s) (deep_equal-eq _ _ equal)
      ∙ count-sort_strings s ys
  | inr differ ↦ absurd cc
]
