-- ===== src/Goutil/Duplicates.antt =====
-- What `RemoveStrDuplicates` keeps.
use mirror_backend.Common.{
  String, Bool, true, false, ◌||◌, List, [], ◌∷◌, ◌++◌, if◌then◌else◌, str_eq, eq_iff, str_eq_of_ne,
  ◌≡◌, refl, Bool-cases, inl, inr, ◌∙◌, sym, ap,
}
use mirror_backend.Goutil.{contains_str, remove_from, remove_str_duplicates}

-- no text stands twice
abbrev pub IsDistinct : List String → Type 0
IsDistinct [] = Unit
IsDistinct (v ∷ vs) = (contains_str vs v ≡ false) × IsDistinct vs

contains_str-append :
    (us vs : List String) (s : String)
    → contains_str (us ++ vs) s ≡ (contains_str us s || contains_str vs s)
unfolding contains_str
contains_str-append [] vs s = refl
contains_str-append (u ∷ us) vs s = elim (Bool-cases (str_eq u s)) [
  | inl same ↦ rw same
  | inr differ ↦ rw differ (contains_str-append us vs s)
]

-- the set of the texts met agrees with the texts kept
abbrev Agree : List String → List String → Type 0
Agree m result = (x : String) → contains_str m x ≡ contains_str result x

contains_str-snoc :
    (result : List String) (v x : String)
    → contains_str (result ++ v ∷ []) x ≡ (if str_eq v x then true else contains_str result x)
unfolding contains_str
contains_str-snoc result v x =
    contains_str-append result (v ∷ []) x ∙ join (contains_str result x) (str_eq v x)
  where
    join : (a b : Bool) → (a || (if b then true else false)) ≡ (if b then true else a)
    join true true = refl
    join true false = refl
    join false true = refl
    join false false = refl

Agree-snoc :
    (m result : List String) (v : String) → Agree m result → Agree (v ∷ m) (result ++ v ∷ [])
unfolding contains_str
Agree-snoc m result v h x =
    ap (λ b. if str_eq v x then true else b) (h x) ∙ sym (contains_str-snoc result v x)

neither : (b c : Bool) → (if b then true else c) ≡ false → (b ≡ false) × (c ≡ false)
neither true c h = cc
neither false c h = (refl, h)

or-false : (a : Bool) → a ≡ (a || false)
or-false true = refl
or-false false = refl

absorb : (a b c : Bool) → (b ≡ true → a ≡ true) → (a || c) ≡ (a || (if b then true else c))
absorb true b c h = refl
absorb false true c h = cc (h refl)
absorb false false c h = refl

reassociate : (a b c : Bool) → ((if b then true else a) || c) ≡ (a || (if b then true else c))
reassociate true true c = refl
reassociate true false c = refl
reassociate false true c = refl
reassociate false false c = refl

IsDistinct-snoc :
    (result : List String) (v : String)
    → contains_str result v ≡ false
    → IsDistinct result
    → IsDistinct (result ++ v ∷ [])
unfolding contains_str
IsDistinct-snoc [] v absent h = (refl, tt)
IsDistinct-snoc (r ∷ rs) v absent (once, h) =
    let (differ, later) = neither (str_eq r v) (contains_str rs v) absent in
    let apart = str_eq_of_ne v r (λ p. cc (differ, (eq_iff r v).1 (sym p))) in
    let kept : contains_str (rs ++ v ∷ []) r ≡ false =
      contains_str-snoc rs v r ∙ ap (λ b. if b then true else contains_str rs r) apart ∙ once in
    (kept, IsDistinct-snoc rs v later h)

remove_from-IsDistinct :
    (m result vs : List String)
    → Agree m result
    → IsDistinct result
    → IsDistinct (remove_from m result vs)
unfolding remove_from
remove_from-IsDistinct m result [] agree h = h
remove_from-IsDistinct m result (v ∷ vs) agree h = elim (Bool-cases (contains_str m v)) [
  | inl met ↦ rw met (remove_from-IsDistinct m result vs agree h)
  | inr new ↦ rw new (
      remove_from-IsDistinct (v ∷ m) (result ++ v ∷ []) vs (Agree-snoc m result v agree)
        (IsDistinct-snoc result v (sym (agree v) ∙ new) h))
]

contains_str-remove_from :
    (m result vs : List String) (x : String)
    → Agree m result
    → contains_str (remove_from m result vs) x ≡ (contains_str result x || contains_str vs x)
unfolding remove_from contains_str
contains_str-remove_from m result [] x agree = or-false (contains_str result x)
contains_str-remove_from m result (v ∷ vs) x agree = elim (Bool-cases (contains_str m v)) [
  | inl met ↦
      let kept : str_eq v x ≡ true → contains_str result x ≡ true =
        λ e. sym (agree x) ∙ ap (contains_str m) (sym ((eq_iff v x).0 e)) ∙ met in
      rw met (contains_str-remove_from m result vs x agree ∙ absorb _ (str_eq v x) _ kept)
  | inr new ↦ rw new (
      contains_str-remove_from (v ∷ m) (result ++ v ∷ []) vs x (Agree-snoc m result v agree)
      ∙ ap (λ b. b || contains_str vs x) (contains_str-snoc result v x)
      ∙ reassociate (contains_str result x) (str_eq v x) (contains_str vs x))
]

-- Removing duplicates leaves no text twice, and leaves exactly the texts that were there.
pub remove_str_duplicates-IsDistinct :
    (vs : List String)
    → IsDistinct (remove_str_duplicates vs)
      × ((x : String) → contains_str (remove_str_duplicates vs) x ≡ contains_str vs x)
unfolding remove_str_duplicates contains_str
remove_str_duplicates-IsDistinct vs = (
  remove_from-IsDistinct [] [] vs (λ x. refl) tt,
  λ x. contains_str-remove_from [] [] vs x (λ y. refl),
)
