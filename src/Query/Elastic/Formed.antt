-- ===== src/Query/Elastic/Formed.antt =====
-- Search clauses without an unknown operator or an empty list, and how the steps of the builder make
-- and use them.
use mathlib.Core.Path.{subst}
use mirror_backend.Common.{
  if◌then◌else◌, String, Bool, true, false, Option, none, some, str_eq, eq_iff, ◌≡◌, refl, ◌≢◌, ◌⊎◌,
  inl, inr, arith, Bool-cases,
}
use mirror_backend.Goutil.{contains_str}
use mirror_backend.Value.{Value}
use mirror_backend.Query.{
  supported_lookup_ops, lookup_op_eq, lookup_op_gt, lookup_op_lt, lookup_op_gte, lookup_op_lte,
  lookup_op_in, QueryOp, query_op_or,
}
use mirror_backend.Query.Elastic.{
  Clause, term, range, terms, must_not, should, must, no_clause, Clauses, nil, clause,
  append_clauses, maybe_clause, op_clause, negate_if, combine,
}

supported_cases :
    (op : String)
    → contains_str supported_lookup_ops op ≡ true
    → (op ≡ lookup_op_eq)
      ⊎ (op ≡ lookup_op_gt)
      ⊎ (op ≡ lookup_op_lt)
      ⊎ (op ≡ lookup_op_gte)
      ⊎ (op ≡ lookup_op_lte)
      ⊎ (op ≡ lookup_op_in)
unfolding contains_str
supported_cases op h = ground (
  arith,
  eq_iff "=" op,
  eq_iff ">" op,
  eq_iff "<" op,
  eq_iff ">=" op,
  eq_iff "<=" op,
  eq_iff "in" op,
)

unfoldable mutual
  -- no unknown operator and no empty list of clauses, at any depth
  pub IsWellFormed : {F : Type 0} → Clause F → Type 0
  IsWellFormed (term field v) = Unit
  IsWellFormed (range field b v) = Unit
  IsWellFormed (terms field v) = Unit
  IsWellFormed (must_not c) = IsWellFormed c
  IsWellFormed (should cs) = (cs ≢ nil) × AreWellFormed cs
  IsWellFormed (must cs) = (cs ≢ nil) × AreWellFormed cs
  IsWellFormed no_clause = ⊥

  pub AreWellFormed : {F : Type 0} → Clauses F → Type 0
  AreWellFormed nil = Unit
  AreWellFormed (clause c cs) = IsWellFormed c × AreWellFormed cs

abbrev pub MaybeWellFormed : {F : Type 0} → Option (Clause F) → Type 0
MaybeWellFormed none = Unit
MaybeWellFormed (some c) = IsWellFormed c

pub nil-AreWellFormed : (F : Type 0) → AreWellFormed {F = F} nil
unfolding AreWellFormed
nil-AreWellFormed F = tt

module _ {F : Type 0} where
  pub negate_if-IsWellFormed :
      (negated : Option Bool) (c : Clause F) → IsWellFormed c → IsWellFormed (negate_if negated c)
  unfolding IsWellFormed
  negate_if-IsWellFormed none c h = h
  negate_if-IsWellFormed (some true) c h = h
  negate_if-IsWellFormed (some false) c h = h

  pub op_clause-IsWellFormed :
      (op : String) (field : String) (v : Value F)
      → contains_str supported_lookup_ops op ≡ true
      → IsWellFormed (op_clause op field v)
  unfolding op_clause IsWellFormed
  op_clause-IsWellFormed op field v h = elim (supported_cases op h) [
    | inl e ↦ rw e tt
    | inr (inl e) ↦ rw e tt
    | inr (inr (inl e)) ↦ rw e tt
    | inr (inr (inr (inl e))) ↦ rw e tt
    | inr (inr (inr (inr (inl e)))) ↦ rw e tt
    | inr (inr (inr (inr (inr e)))) ↦ rw e tt
  ]

  pub append-AreWellFormed :
      (cs ds : Clauses F)
      → AreWellFormed cs
      → AreWellFormed ds
      → AreWellFormed (append_clauses cs ds)
  unfolding AreWellFormed
  append-AreWellFormed nil ds h k = k
  append-AreWellFormed (clause c cs) ds h k = (h.0, append-AreWellFormed cs ds h.1 k)

  pub maybe-AreWellFormed :
      (c : Option (Clause F)) (cs : Clauses F)
      → MaybeWellFormed c
      → AreWellFormed cs
      → AreWellFormed (maybe_clause c cs)
  unfolding AreWellFormed
  maybe-AreWellFormed none cs h k = k
  maybe-AreWellFormed (some c) cs h k = (h, k)

  pub combine-IsWellFormed :
      (op : QueryOp) (negated : Option Bool) (cs : Clauses F)
      → AreWellFormed cs
      → MaybeWellFormed (combine op negated cs)
  unfolding combine IsWellFormed
  combine-IsWellFormed op negated nil h = tt
  combine-IsWellFormed op negated (clause c cs) h = elim (Bool-cases (str_eq op query_op_or)) [
    | inl disjunction ↦ rw disjunction (negate_if-IsWellFormed negated _ (λ p. cc, h))
    | inr conjunction ↦ rw conjunction (negate_if-IsWellFormed negated _ (λ p. cc, h))
  ]

  -- the other way
  pub IsWellFormed-negate_if :
      (negated : Option Bool) (c : Clause F) → IsWellFormed (negate_if negated c) → IsWellFormed c
  unfolding IsWellFormed
  IsWellFormed-negate_if none c h = h
  IsWellFormed-negate_if (some true) c h = h
  IsWellFormed-negate_if (some false) c h = h

  pub AreWellFormed-append :
      (cs ds : Clauses F)
      → AreWellFormed (append_clauses cs ds)
      → AreWellFormed cs × AreWellFormed ds
  unfolding AreWellFormed
  AreWellFormed-append nil ds h = (tt, h)
  AreWellFormed-append (clause c cs) ds h =
      let (left, right) = AreWellFormed-append cs ds h.1 in ((h.0, left), right)

  pub AreWellFormed-maybe :
      (c : Option (Clause F)) (cs : Clauses F)
      → AreWellFormed (maybe_clause c cs)
      → MaybeWellFormed c × AreWellFormed cs
  unfolding AreWellFormed
  AreWellFormed-maybe none cs h = (tt, h)
  AreWellFormed-maybe (some c) cs h = h

  pub AreWellFormed-combine :
      (op : QueryOp) (negated : Option Bool) (cs : Clauses F)
      → MaybeWellFormed (combine op negated cs)
      → AreWellFormed cs
  unfolding combine IsWellFormed
  AreWellFormed-combine op negated nil h = tt
  AreWellFormed-combine op negated (clause c cs) h = elim (Bool-cases (str_eq op query_op_or)) [
    | inl disjunction ↦
        (IsWellFormed-negate_if negated (should (clause c cs)) (
          subst
            (λ b.
              IsWellFormed
                (negate_if negated (if b then should (clause c cs) else must (clause c cs))))
            disjunction h)).1
    | inr conjunction ↦
        (IsWellFormed-negate_if negated (must (clause c cs)) (
          subst
            (λ b.
              IsWellFormed
                (negate_if negated (if b then should (clause c cs) else must (clause c cs))))
            conjunction h)).1
  ]

  pub unknown-op :
      (op : String) (field : String) (v : Value F)
      → (str_eq op "=" ≡ false)
        × (str_eq op ">" ≡ false)
        × (str_eq op "<" ≡ false)
        × (str_eq op ">=" ≡ false)
        × (str_eq op "<=" ≡ false)
        × (str_eq op "in" ≡ false)
      → IsWellFormed (op_clause op field v)
      → ⊥
  unfolding op_clause IsWellFormed
  unknown-op op field v (n1, n2, n3, n4, n5, n6) h =
      let nothing : op_clause op field v ≡ no_clause = rw (n1, n2, n3, n4, n5, n6) refl in
      subst IsWellFormed nothing h
