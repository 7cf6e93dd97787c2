-- ===== src/Text/Inversion.antt =====
-- What the parts that `strings.Split` returns tell of the text.
use Prim.Native.Char.{Char, code}
use Prim.Native.String.{◌++◌}
use text.Mathlib.TextLemmas.{nil-append, cons-append}
use mathlib.Core.Path.{subst}
use mirror_backend.Common.{
  ℕ, ◌≤◌, String, Bool, true, false, List, [], ◌∷◌, ◌==◌, if◌then◌else◌, ◌≡◌, ◌≢◌, refl, sym, ap,
  ◌∙◌, ◌⊎◌, arith, inl, inr, length, ==_iff,
}
use mirror_backend.Text.{push_head, split}
use mirror_backend.Text.Splitting.{Lacks, split-nonempty}

push_head-eq :
    (c : Char) (rest : List String) {p : String} {ps : List String}
    → 1 ≤ length rest
    → push_head c rest ≡ p ∷ ps
    → (q : String) × (rest ≡ q ∷ ps) × (String.◌∷◌ c q ≡ p)
push_head-eq c [] h e = absurd (omega arith)
push_head-eq c (q ∷ qs) h e = (q, cc, cc)

nothing : (ps : List String) → 1 ≤ length ps → ps ≡ [] → ⊥
nothing [] h e = absurd (omega arith)
nothing (p ∷ ps) h e = cc

unequal : (m n : ℕ) → (m == n) ≡ false → m ≢ n
unequal m n h e = ground arith

module _ (sep : ℕ) where
  -- The first part begins with the first character, or is empty where that is the separator.
  split-cons :
      (c : Char) (s : String) (p : String) (ps : List String)
      → split sep (String.◌∷◌ c s) ≡ p ∷ ps
      → (code c ≡ sep) × ("" ≡ p) × (split sep s ≡ ps)
        ⊎ (code c ≢ sep) × (q : String) × (split sep s ≡ q ∷ ps) × (String.◌∷◌ c q ≡ p)
  unfolding split
  split-cons c s p ps h = go (code c == sep) refl h
    where
      go :
          (b : Bool)
          → (code c == sep) ≡ b
          → (if b then "" ∷ split sep s else push_head c (split sep s)) ≡ p ∷ ps
          → (code c ≡ sep) × ("" ≡ p) × (split sep s ≡ ps)
            ⊎ (code c ≢ sep) × (q : String) × (split sep s ≡ q ∷ ps) × (String.◌∷◌ c q ≡ p)
      go true e h = inl ((==_iff (code c) sep).0 e, cc, cc)
      go false e h =
          let (q, rest, same) = push_head-eq c (split sep s) (split-nonempty sep s) h in
          inr (unequal (code c) sep e, q, rest, same)

  -- one part: the text itself, without the separator
  pub split-one : (s p : String) → split sep s ≡ p ∷ [] → (s ≡ p) × Lacks sep s
  unfolding split
  split-one String.[] p h = (cc, tt)
  split-one (String.◌∷◌ c s) p h = elim (split-cons c s p [] h) [
    | inl (_, _, none_left) ↦ absurd (nothing (split sep s) (split-nonempty sep s) none_left)
    | inr (differ, q, rest, same) ↦
        let (whole, lacks) = split-one s q rest in
        (ap (λ t. String.◌∷◌ c t) whole ∙ same, (differ, lacks))
  ]

  -- two parts: the one in front of the only separator and the one behind it
  pub split-two :
      (s p q : String)
      → split sep s ≡ p ∷ q ∷ []
      → (at : Char) × (code at ≡ sep) × (s ≡ p ++ String.◌∷◌ at q) × Lacks sep p × Lacks sep q
  unfolding split
  split-two String.[] p q h = absurd cc
  split-two (String.◌∷◌ c s) p q h = elim (split-cons c s p (q ∷ []) h) [
    | inl (is_at, empty, rest) ↦
        let (whole, lacks) = split-one s q rest in
        (
          c,
          is_at,
          ap (λ t. String.◌∷◌ c t) whole
              ∙ sym (nil-append (String.◌∷◌ c q))
              ∙ ap (λ t. t ++ String.◌∷◌ c q) empty,
          subst (Lacks sep) empty tt,
          subst (Lacks sep) whole lacks,
        )
    | inr (differ, r, rest, same) ↦
        let (at, is_at, whole, before, behind) = split-two s r q rest in
        (
          at,
          is_at,
          ap (λ t. String.◌∷◌ c t) whole
              ∙ sym (cons-append c r (String.◌∷◌ at q))
              ∙ ap (λ t. t ++ String.◌∷◌ at q) same,
          subst (Lacks sep) same (differ, before),
          behind,
        )
  ]
