-- ===== src/Repo/Filter/Holes.antt =====
-- The placeholders of a filter's SQL condition.
use Prim.Native.Char.{code}
use Prim.Native.String.{◌++◌}
use text.Mathlib.TextLemmas.{nil-append, cons-append}
use mirror_backend.Common.{
  ℕ, suc, ◌+◌, ◌-◌, String, Bool, true, false, not, ◌&&◌, Option, none, some, List, [], ◌∷◌, ◌==◌,
  ltb, str_eq, if◌then◌else◌, length, ◌≡◌, refl, arith, Option-cases, Bool-cases, inl, inr,
}
use mirror_backend.Repo.Filter.{
  Condition, sub_sql, logical_op, separator, to_sql_from, to_sql_with_args,
}

-- how often a character stands in a text
pub occurrences : ℕ → String → ℕ
occurrences k String.[] = 0
occurrences k (String.◌∷◌ c s) =
    let rest = occurrences k s in if code c == k then rest + 1 else rest

occurrences-append :
    (k : ℕ) (s t : String) → occurrences k (s ++ t) ≡ occurrences k s + occurrences k t
unfolding occurrences
occurrences-append k String.[] t = rw (nil-append t) (omega arith)
occurrences-append k (String.◌∷◌ c s) t =
    rw (cons-append c s t) (ground (arith, occurrences-append k s t))

abbrev holes : String → ℕ
holes = occurrences b'?'

-- the names and operators of the condition hold no question mark
abbrev pub IsPlain : {A : Type 0} → Condition A → Type 0
IsPlain c = (holes c.column ≡ 0) × (holes c.op ≡ 0) × (holes c.next_logical_op ≡ 0)

abbrev pub ArePlain : {A : Type 0} → List (Option (Condition A)) → Type 0
ArePlain [] = Unit
ArePlain (none ∷ cs) = ArePlain cs
ArePlain (some c ∷ cs) = IsPlain c × ArePlain cs

holes-if : (b : Bool) (s : String) → holes s ≡ 0 → holes (if b then s else "") ≡ 0
unfolding occurrences
holes-if true s h = h
holes-if false s h = refl

bracket : (b : Bool) → holes (if b then "(" else "") ≡ 0
unfolding occurrences
bracket true = refl
bracket false = refl

bracket_end : (b : Bool) → holes (if b then ")" else "") ≡ 0
unfolding occurrences
bracket_end true = refl
bracket_end false = refl

hole : holes " ?" ≡ 1
unfolding occurrences
hole = refl

blank : holes " " ≡ 0
unfolding occurrences
blank = refl

holes-three :
    (a b c : String) (n : ℕ)
    → holes a ≡ 1
    → holes b ≡ 0
    → holes c ≡ n
    → holes (a ++ (b ++ c)) ≡ suc n
holes-three a b c n ha hb hc =
    omega (arith, occurrences-append b'?' a (b ++ c), occurrences-append b'?' b c)

module _ {A : Type 0} where
  holes-sub_sql : (c : Condition A) → IsPlain c → holes (sub_sql c) ≡ 1
  unfolding sub_sql
  holes-sub_sql c (column, op, _) = rw (
    occurrences-append,
    occurrences-append,
    occurrences-append,
    occurrences-append,
    occurrences-append,
    bracket c.open_bracket,
    column,
    blank,
    op,
    hole,
    bracket_end c.close_bracket,
  )

  holes-logical_op : (c : Condition A) → IsPlain c → holes (logical_op c) ≡ 0
  unfolding logical_op occurrences
  holes-logical_op c h = elim (Bool-cases (str_eq c.next_logical_op "")) [
    | inl same ↦ rw same
    | inr differ ↦ rw differ h.2
  ]

  holes-separator : (c : Condition A) → IsPlain c → holes (separator c) ≡ 0
  unfolding separator
  holes-separator c h = rw (occurrences-append, occurrences-append, blank, holes-logical_op c h)

  holes-to_sql_from :
      (size i : ℕ) (cs : List (Option (Condition A)))
      → ArePlain cs
      → holes (to_sql_from size i cs).0 ≡ length (to_sql_from size i cs).1
  unfolding to_sql_from
  holes-to_sql_from size i [] h = (unfold occurrences in refl)
  holes-to_sql_from size i (none ∷ cs) h = holes-to_sql_from size (i + 1) cs h
  holes-to_sql_from size i (some c ∷ cs) (plain, h) =
      let rest = holes-to_sql_from size (i + 1) cs h in
      elim (Option-cases c.value) [
        | inl missing ↦ rw missing rest
        | inr (v, given) ↦ rw given (
            holes-three (sub_sql c) _ _ _ (holes-sub_sql c plain)
              (holes-if (ltb 1 size && not (i == (size - 1))) (separator c)
                (holes-separator c plain))
              rest)
      ]

-- An SQL condition has as many placeholders as arguments, if no column and no operator of the filter
-- holds a question mark.
pub to_sql_with_args-holes :
    {A : Type 0} (cs : List (Option (Condition A)))
    → ArePlain cs
    → occurrences b'?' (to_sql_with_args cs).0 ≡ length (to_sql_with_args cs).1
unfolding to_sql_with_args
to_sql_with_args-holes cs h = holes-to_sql_from (length cs) 0 cs h
