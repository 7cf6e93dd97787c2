-- ===== src/Handler/Users/Emails.antt =====
-- The loop of `CreateUsers` of handler/user.go that looks for an email that is there twice.
use text.Mathlib.TextPositions.{eq_refl}
use mirror_backend.Common.{
  String, Bool, true, false, Option, none, some, List, [], ◌∷◌, map, if◌then◌else◌, str_eq, eq_iff,
  ◌≡◌, refl, ap, ◌∙◌, Bool-cases, inl, inr,
}
use mirror_backend.Entity.User.{User}
use mirror_backend.Goutil.{contains_str}
use mirror_backend.Goutil.Duplicates.{IsDistinct}
use mirror_backend.Handler.Users.Creation.{get_email, duplicate_email}

not_met :
    (b : Bool) (e : String) (rest : Option String)
    → (if b then some e else rest) ≡ none
    → (b ≡ false) × (rest ≡ none)
not_met true e rest h = absurd cc
not_met false e rest h = (refl, h)

-- No email of the users is among those met before.
duplicate_email-met :
    (met : List String) (us : List User) (e : String)
    → duplicate_email met us ≡ none
    → contains_str met e ≡ true
    → contains_str (map get_email us) e ≡ false
unfolding duplicate_email contains_str
duplicate_email-met met [] e h k = refl
duplicate_email-met met (u ∷ us) e h k =
    let (new, later) =
      not_met (contains_str met (get_email u)) (get_email u)
        (duplicate_email (get_email u ∷ met) us) h in
    elim (Bool-cases (str_eq (get_email u) e)) [
      | inl same ↦ let there = ap (contains_str met) ((eq_iff (get_email u) e).0 same) in absurd cc
      | inr differ ↦ rw differ (
          duplicate_email-met (get_email u ∷ met) us e later
            (ap (λ b. if b then true else contains_str met e) differ ∙ k))
    ]

pub duplicate_email-IsDistinct :
    (met : List String) (us : List User)
    → duplicate_email met us ≡ none
    → IsDistinct (map get_email us)
unfolding duplicate_email contains_str
duplicate_email-IsDistinct met [] h = tt
duplicate_email-IsDistinct met (u ∷ us) h =
    let (_, later) =
      not_met (contains_str met (get_email u)) (get_email u)
        (duplicate_email (get_email u ∷ met) us) h in
    (
      duplicate_email-met (get_email u ∷ met) us (get_email u) later
          (ap (λ b. if b then true else contains_str met (get_email u)) (eq_refl (get_email u))),
      duplicate_email-IsDistinct (get_email u ∷ met) us later,
    )
