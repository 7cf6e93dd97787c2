-- ===== src/Goutil/Sorting/Sorted.antt =====
-- That `IsStrArrEqual` finds lists with the same strings equal: a list has one sorted order.
use mathlib.Core.Path.{ap₂}
use text.Mathlib.TextPositions.{eq_refl}
use mirror_backend.Common.{
  suc, ◌+◌, ◌≤◌, String, true, List, [], ◌∷◌, All, ==_iff, str_eq, eq_iff, length, ◌≡◌, ◌↔◌, refl,
  sym, ap, ◌∙◌, arith, Bool-cases, inl, inr,
}
use mirror_backend.Goutil.Sorting.{str_leb, insert, sort_strings, deep_equal, is_str_arr_equal}
use mirror_backend.Goutil.Sorting.Counts.{
  count, SameStrings, count-sort_strings, is_str_arr_equal-SameStrings,
}
use mirror_backend.Goutil.Sorting.Order.{
  str_leb_total, str_leb_trans, str_leb_antisymm, str_leb_refl,
}

abbrev IsBelow : String → List String → Type 0
IsBelow s l = All (λ t. str_leb s t ≡ true) l

abbrev IsSorted : List String → Type 0
IsSorted [] = Unit
IsSorted (s ∷ l) = IsBelow s l × IsSorted l

IsBelow-insert :
    (s t : String) (l : List String) → str_leb s t ≡ true → IsBelow s l → IsBelow s (insert t l)
unfolding insert
IsBelow-insert s t [] h k = (h, tt)
IsBelow-insert s t (u ∷ us) h (k, ks) = elim (Bool-cases (str_leb t u)) [
  | inl below ↦ rw below (h, (k, ks))
  | inr above ↦ rw above (k, IsBelow-insert s t us h ks)
]

IsBelow-trans : (s t : String) (l : List String) → str_leb s t ≡ true → IsBelow t l → IsBelow s l
IsBelow-trans s t [] h k = tt
IsBelow-trans s t (u ∷ us) h (k, ks) = (str_leb_trans s t u h k, IsBelow-trans s t us h ks)

IsSorted-insert : (t : String) (l : List String) → IsSorted l → IsSorted (insert t l)
unfolding insert
IsSorted-insert t [] h = (tt, tt)
IsSorted-insert t (u ∷ us) (h, hs) = elim (Bool-cases (str_leb t u)) [
  | inl below ↦ rw below ((below, IsBelow-trans t u us below h), (h, hs))
  | inr above ↦
      rw above (IsBelow-insert u t us (str_leb_total t u above) h, IsSorted-insert t us hs)
]

IsSorted-sort_strings : (l : List String) → IsSorted (sort_strings l)
unfolding sort_strings
IsSorted-sort_strings [] = tt
IsSorted-sort_strings (s ∷ l) = IsSorted-insert s (sort_strings l) (IsSorted-sort_strings l)

-- What is below the head is below every string that the list holds.
below_counted : (s t : String) (l : List String) → IsBelow s l → 1 ≤ count t l → str_leb s t ≡ true
below_counted s t [] h k = absurd (omega arith)
below_counted s t (u ∷ us) (h, hs) k = elim (Bool-cases (str_eq t u)) [
  | inl same ↦ ap (str_leb s) ((eq_iff t u).0 same) ∙ h
  | inr differ ↦
      let rest : count t (u ∷ us) ≡ 0 + count t us = rw differ refl in
      below_counted s t us hs (omega (arith, rest))
]

head_counted : (s : String) (l : List String) → 1 ≤ count s (s ∷ l)
head_counted s l = let once : count s (s ∷ l) ≡ 1 + count s l = rw (eq_refl s) refl in omega arith

sorted_once : (xs ys : List String) → IsSorted xs → IsSorted ys → SameStrings xs ys → xs ≡ ys
sorted_once [] [] h k same = refl
sorted_once [] (b ∷ ys) h k same = absurd (omega (arith, same b, head_counted b ys))
sorted_once (a ∷ xs) [] h k same = absurd (omega (arith, same a, head_counted a xs))
sorted_once (a ∷ xs) (b ∷ ys) (h, hs) (k, ks) same =
    let a_first : str_leb a b ≡ true =
      below_counted a b (a ∷ xs) (str_leb_refl a, h) (omega (arith, same b, head_counted b ys)) in
    let b_first : str_leb b a ≡ true =
      below_counted b a (b ∷ ys) (str_leb_refl b, k) (omega (arith, same a, head_counted a xs)) in
    let heads = str_leb_antisymm a b a_first b_first in
    let rests : SameStrings xs ys = λ s.
      let head_same : count s (a ∷ []) ≡ count s (b ∷ []) = ap (λ c. count s (c ∷ [])) heads in
      omega (arith, same s, head_same) in
    ap₂ ◌∷◌ heads (sorted_once xs ys hs ks rests)

length-insert : (s : String) (l : List String) → length (insert s l) ≡ suc (length l)
unfolding insert
length-insert s [] = refl
length-insert s (t ∷ ts) = elim (Bool-cases (str_leb s t)) [
  | inl below ↦ rw below refl
  | inr above ↦ rw above (ap suc (length-insert s ts))
]

length-sort_strings : (l : List String) → length (sort_strings l) ≡ length l
unfolding sort_strings
length-sort_strings [] = refl
length-sort_strings (s ∷ l) = length-insert s (sort_strings l) ∙ ap suc (length-sort_strings l)

deep_equal_refl : (l : List String) → deep_equal l l ≡ true
unfolding deep_equal
deep_equal_refl [] = refl
deep_equal_refl (s ∷ l) = rw (eq_refl s, deep_equal_refl l) refl

SameStrings-is_str_arr_equal :
    (xs ys : List String) → SameStrings xs ys → is_str_arr_equal xs ys ≡ true
unfolding is_str_arr_equal
SameStrings-is_str_arr_equal xs ys same =
    let sorted : sort_strings xs ≡ sort_strings ys =
      sorted_once (sort_strings xs) (sort_strings ys) (IsSorted-sort_strings xs)
        (IsSorted-sort_strings ys)
        (λ s. count-sort_strings s xs ∙ same s ∙ sym (count-sort_strings s ys)) in
    let lengths : length xs ≡ length ys =
      sym (length-sort_strings xs) ∙ ap length sorted ∙ length-sort_strings ys in
    rw ((==_iff (length xs) (length ys)).1 lengths, sorted, deep_equal_refl (sort_strings ys)) refl

-- `IsStrArrEqual` finds two lists equal exactly where each string is as often in one as in the other.
pub is_str_arr_equal_iff :
    (xs ys : List String) → (is_str_arr_equal xs ys ≡ true) ↔ SameStrings xs ys
is_str_arr_equal_iff xs ys =
    (is_str_arr_equal-SameStrings xs ys, SameStrings-is_str_arr_equal xs ys)
