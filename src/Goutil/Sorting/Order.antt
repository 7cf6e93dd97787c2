-- ===== src/Goutil/Sorting/Order.antt =====
-- The order in which `sort.Strings` puts strings.
use Prim.Native.Char.{code}
use text.Mathlib.TextEquality.{Char-path}
use mathlib.Core.Path.{ap₂}
use mirror_backend.Common.{
  ℕ, ◌<◌, String, Bool, true, false, ◌==◌, ltb, if◌then◌else◌, ◌≡◌, ◌⊎◌, inl, inr, refl, arith,
}
use mirror_backend.Goutil.Sorting.{str_leb}

-- what the first characters and the rests say
step_leb : (c d : ℕ) (rest : Bool) → Bool
step_leb c d rest = if ltb c d then true else if c == d then rest else false

step_leb-cases :
    (c d : ℕ) (rest : Bool) → step_leb c d rest ≡ true → (c < d) ⊎ ((c ≡ d) × (rest ≡ true))
unfolding step_leb
step_leb-cases c d rest h = ground arith

cases-step_leb :
    (c d : ℕ) (rest : Bool) → (c < d) ⊎ ((c ≡ d) × (rest ≡ true)) → step_leb c d rest ≡ true
unfolding step_leb
cases-step_leb c d rest h = ground arith

step_leb-total :
    (c d : ℕ) (rest : Bool) → step_leb c d rest ≡ false → (d < c) ⊎ ((d ≡ c) × (rest ≡ false))
unfolding step_leb
step_leb-total c d rest h = ground arith

pub str_leb_total : (s t : String) → str_leb s t ≡ false → str_leb t s ≡ true
unfolding str_leb step_leb
str_leb_total String.[] t h = absurd cc
str_leb_total (String.◌∷◌ c s) String.[] h = refl
str_leb_total (String.◌∷◌ c s) (String.◌∷◌ d t) h =
    elim (step_leb-total (code c) (code d) (str_leb s t) h) [
      | inl below ↦ cases-step_leb (code d) (code c) (str_leb t s) (inl below)
      | inr (same, rest) ↦
          cases-step_leb (code d) (code c) (str_leb t s) (inr (same, str_leb_total s t rest))
    ]

pub str_leb_trans : (s t u : String) → str_leb s t ≡ true → str_leb t u ≡ true → str_leb s u ≡ true
unfolding str_leb step_leb
str_leb_trans String.[] t u h k = refl
str_leb_trans (String.◌∷◌ c s) String.[] u h k = absurd cc
str_leb_trans (String.◌∷◌ c s) (String.◌∷◌ d t) String.[] h k = absurd cc
str_leb_trans (String.◌∷◌ c s) (String.◌∷◌ d t) (String.◌∷◌ e u) h k =
    elim (step_leb-cases (code c) (code d) (str_leb s t) h) [
      | inl below ↦ elim (step_leb-cases (code d) (code e) (str_leb t u) k) [
        | inl below' ↦ cases-step_leb (code c) (code e) (str_leb s u) (inl (omega arith))
        | inr (same', rest') ↦ cases-step_leb (code c) (code e) (str_leb s u) (inl (omega arith))
      ]
      | inr (same, rest) ↦ elim (step_leb-cases (code d) (code e) (str_leb t u) k) [
        | inl below' ↦ cases-step_leb (code c) (code e) (str_leb s u) (inl (omega arith))
        | inr (same', rest') ↦
            cases-step_leb (code c) (code e) (str_leb s u)
              (inr (omega arith, str_leb_trans s t u rest rest'))
      ]
    ]

pub str_leb_antisymm : (s t : String) → str_leb s t ≡ true → str_leb t s ≡ true → s ≡ t
unfolding str_leb step_leb
str_leb_antisymm String.[] String.[] h k = refl
str_leb_antisymm String.[] (String.◌∷◌ d t) h k = absurd cc
str_leb_antisymm (String.◌∷◌ c s) String.[] h k = absurd cc
str_leb_antisymm (String.◌∷◌ c s) (String.◌∷◌ d t) h k =
    elim (step_leb-cases (code c) (code d) (str_leb s t) h) [
      | inl below ↦ elim (step_leb-cases (code d) (code c) (str_leb t s) k) [
        | inl below' ↦ absurd (omega arith)
        | inr (same', rest') ↦ absurd (omega arith)
      ]
      | inr (same, rest) ↦ elim (step_leb-cases (code d) (code c) (str_leb t s) k) [
        | inl below' ↦ absurd (omega arith)
        | inr (same', rest') ↦ ap₂ String.◌∷◌ (Char-path c d same) (str_leb_antisymm s t rest rest')
      ]
    ]

pub str_leb_refl : (s : String) → str_leb s s ≡ true
unfolding str_leb step_leb
str_leb_refl String.[] = refl
str_leb_refl (String.◌∷◌ c s) =
    cases-step_leb (code c) (code c) (str_leb s s) (inr (refl, str_leb_refl s))
