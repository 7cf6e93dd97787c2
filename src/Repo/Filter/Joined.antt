-- ===== src/Repo/Filter/Joined.antt =====
-- The text of a filter, described without positions.
use Prim.Native.String.{◌++◌}
use mirror_backend.Common.{
  ℕ, ◌+◌, ◌-◌, String, Bool, true, false, not, ◌&&◌, Option, none, some, is_some, map, List, [],
  ◌∷◌, ◌==◌, ltb, if◌then◌else◌, length, ◌≡◌, ◌∙◌, refl, sym, ap, arith, Option-cases, inl, inr,
}
use mirror_backend.Repo.Filter.{Condition, sub_sql, separator, to_sql_from, to_sql_with_args}

module _ {A : Type 0} where
  -- the conditions that have a value, with it
  abbrev pub keep : Condition A → Option A → List (Condition A × A) → List (Condition A × A)
  keep c none l = l
  keep c (some v) l = (c, v) ∷ l

  pub live : List (Option (Condition A)) → List (Condition A × A)
  live [] = []
  live (none ∷ cs) = live cs
  live (some c ∷ cs) = keep c c.value (live cs)

  abbrev has_value : Option (Condition A) → Bool
  has_value none = false
  has_value (some c) = is_some c.value

  -- the last condition has no value
  abbrev pub dangles : List (Option (Condition A)) → Bool
  dangles [] = false
  dangles (c ∷ []) = not (has_value c)
  dangles (c ∷ d ∷ cs) = dangles (d ∷ cs)

  -- the conditions joined by their operators
  abbrev pub joined : Bool → List (Condition A × A) → String
  joined trailing [] = ""
  joined trailing ((c, v) ∷ []) = sub_sql c ++ ((if trailing then separator c else "") ++ "")
  joined trailing ((c, v) ∷ d ∷ ds) = sub_sql c ++ (separator c ++ joined trailing (d ∷ ds))

  joined-cons :
      (trailing : Bool) (c : Condition A) (v : A) (l : List (Condition A × A))
      → (l ≡ [] → trailing ≡ true)
      → joined trailing ((c, v) ∷ l) ≡ sub_sql c ++ (separator c ++ joined trailing l)
  joined-cons trailing c v [] h = rw (h refl)
  joined-cons trailing c v (d ∷ ds) h = refl

  dangles_of_live :
      (c : Option (Condition A)) (cs : List (Option (Condition A)))
      → live (c ∷ cs) ≡ []
      → dangles (c ∷ cs) ≡ true
  unfolding live
  dangles_of_live none [] h = refl
  dangles_of_live (some c) [] h = elim (Option-cases c.value) [
    | inl missing ↦ rw missing
    | inr (v, given) ↦ cc (given, ap (λ o. keep c o []) given)
  ]
  dangles_of_live none (d ∷ cs) h = dangles_of_live d cs h
  dangles_of_live (some c) (d ∷ cs) h = elim (Option-cases c.value) [
    | inl missing ↦ dangles_of_live d cs (sym (ap (λ o. keep c o (live (d ∷ cs))) missing) ∙ h)
    | inr (v, given) ↦ cc (sym (ap (λ o. keep c o (live (d ∷ cs))) given) ∙ h)
  ]

  to_sql_from-joined :
      (size i : ℕ) (cs : List (Option (Condition A)))
      → i + length cs ≡ size
      → to_sql_from size i cs ≡ (joined (dangles cs) (live cs), map (λ p. p.1) (live cs))
  unfolding to_sql_from live
  to_sql_from-joined size i [] h = refl
  to_sql_from-joined size i (none ∷ []) h = refl
  to_sql_from-joined size i (none ∷ d ∷ cs) h =
      to_sql_from-joined size (i + 1) (d ∷ cs) (omega arith)
  to_sql_from-joined size i (some c ∷ []) h = elim (Option-cases c.value) [
    | inl missing ↦ rw missing
    | inr (v, given) ↦
        let last : (ltb 1 size && not (i == (size - 1))) ≡ false = ground arith in rw (given, last)
  ]
  to_sql_from-joined size i (some c ∷ d ∷ cs) h =
      let rest = to_sql_from-joined size (i + 1) (d ∷ cs) (omega arith) in
      elim (Option-cases c.value) [
        | inl missing ↦ rw missing rest
        | inr (v, given) ↦
            let more : (ltb 1 size && not (i == (size - 1))) ≡ true = ground arith in
            rw (given, more, rest)
              (ap (λ t. (t, v ∷ map (λ p. p.1) (live (d ∷ cs))))
                (sym (joined-cons (dangles (d ∷ cs)) c v (live (d ∷ cs)) (dangles_of_live d cs))))
      ]

-- The SQL condition is the conditions that have a value, each followed by its operator but the last,
-- and the arguments are their values in order; where the last condition has no value, the last one
-- that has one is followed by its operator too, with nothing behind it.
pub to_sql_with_args-joined :
    {A : Type 0} (cs : List (Option (Condition A)))
    → to_sql_with_args cs ≡ (joined (dangles cs) (live cs), map (λ p. p.1) (live cs))
unfolding to_sql_with_args
to_sql_with_args-joined cs = to_sql_from-joined (length cs) 0 cs (omega arith)
