-- ===== src/Goutil/Members.antt =====
-- Membership in the lists that `ContainsStr` of pkg/goutil/util.go looks through.
use mathlib.Core.List.{Memᴰ}
use mathlib.Core.List.Memᴰ.{head, tail, not-nil}
use mirror_backend.Common.{
  String, true, List, [], ◌∷◌, str_eq, eq_iff, any, ◌≡◌, sym, refl, ap, ◌∙◌, if◌then◌else◌,
  Bool-cases, inl, inr,
}
use mirror_backend.Goutil.{contains_str}
use mirror_backend.Goutil.Duplicates.{IsDistinct}

pub Memᴰ-contains_str : (vs : List String) (s : String) → contains_str vs s ≡ true → Memᴰ s vs
unfolding contains_str
Memᴰ-contains_str [] s h = absurd cc
Memᴰ-contains_str (v ∷ vs) s h = elim (Bool-cases (str_eq v s)) [
  | inl same ↦ head (sym ((eq_iff v s).0 same))
  | inr differ ↦
      tail
        (Memᴰ-contains_str vs s (ap (λ b. if b then true else contains_str vs s) (sym differ) ∙ h))
]

pub contains_str-Memᴰ : (vs : List String) (s : String) → Memᴰ s vs → contains_str vs s ≡ true
unfolding contains_str
contains_str-Memᴰ [] s h = absurd (not-nil h)
contains_str-Memᴰ (v ∷ vs) s (head e) = rw ((eq_iff v s).1 (sym e)) refl
contains_str-Memᴰ (v ∷ vs) s (tail m) = elim (Bool-cases (str_eq v s)) [
  | inl same ↦ rw same refl
  | inr differ ↦ rw differ (contains_str-Memᴰ vs s m)
]

-- One text is in both lists.
pub any-shared :
    (allowed actions : List String)
    → any (contains_str allowed) actions ≡ true
    → (s : String) × Memᴰ s actions × Memᴰ s allowed
any-shared allowed [] h = absurd cc
any-shared allowed (a ∷ actions) h = elim (Bool-cases (contains_str allowed a)) [
  | inl there ↦ (a, head refl, Memᴰ-contains_str allowed a there)
  | inr missing ↦
      let later : any (contains_str allowed) actions ≡ true = cc in
      let (s, m, n) = any-shared allowed actions later in (s, tail m, n)
]

pub shared-any :
    (allowed actions : List String) (s : String)
    → Memᴰ s actions
    → Memᴰ s allowed
    → any (contains_str allowed) actions ≡ true
shared-any allowed [] s m n = absurd (not-nil m)
shared-any allowed (a ∷ actions) s (head e) n =
    let there : contains_str allowed a ≡ true = rw (← e) (contains_str-Memᴰ allowed s n) in
    rw there refl
shared-any allowed (a ∷ actions) s (tail m) n = elim (Bool-cases (contains_str allowed a)) [
  | inl there ↦ rw there refl
  | inr missing ↦ rw missing (shared-any allowed actions s m n)
]

-- no text stands at two places
abbrev pub NoneTwice : List String → Type 0
NoneTwice [] = Unit
NoneTwice (v ∷ vs) = (¬ Memᴰ v vs) × NoneTwice vs

pub IsDistinct-NoneTwice : (vs : List String) → IsDistinct vs → NoneTwice vs
IsDistinct-NoneTwice [] h = tt
IsDistinct-NoneTwice (v ∷ vs) (missing, later) =
    (λ m. cc (missing, contains_str-Memᴰ vs v m), IsDistinct-NoneTwice vs later)
