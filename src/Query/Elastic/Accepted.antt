-- ===== src/Query/Elastic/Accepted.antt =====
-- What the query builder does with queries that the validator has passed.
use mirror_backend.Common.{
  ℕ, zero, suc, ◌+◌, Bool, true, false, not, Option, none, some, List, [], ◌∷◌, get_or, is_some,
  ◌≡◌, inl, refl, arith, >>=-eq-some, Result, All, ◌∙◌, eq_of_some,
}
use mirror_backend.Value.{Floats}
use mirror_backend.Entity.Tag.{Tag}
use mirror_backend.Query.{
  Lookup, query_op_and, Query, query, Queries, nil_slice, slice, QueryItems, no_more, nil_query,
  sub_query,
}
use mirror_backend.Query.Validate.{validate}
use mirror_backend.Query.Validate.Sound.{
  AcceptsLookup, Accepts, AcceptsQueries, AcceptsItems, validate_iff,
}
use mirror_backend.Query.Elastic.Returns.{has_nil, build_elastic_query-returns}
use mirror_backend.Query.Elastic.{
  Clause, Clauses, nil, clause, append_clauses, maybe_clause, build_lookup, build_lookups, combine,
  build_elastic_query, build_queries, build_items,
}
use mirror_backend.Query.Elastic.Formed.{
  IsWellFormed, AreWellFormed, MaybeWellFormed, nil-AreWellFormed, negate_if-IsWellFormed,
  op_clause-IsWellFormed, append-AreWellFormed, maybe-AreWellFormed, combine-IsWellFormed,
}

module _ (floats : Floats) {E : Type 0} (get_by_id : ℕ → ℕ → Result E Tag) (tenant_id : ℕ) where
  open floats use {Float}

  build_lookups-AreWellFormed :
      (ls : List (Option (Lookup Float))) (cs : Clauses Float)
      → All (AcceptsLookup floats get_by_id tenant_id) ls
      → build_lookups ls ≡ some cs
      → AreWellFormed cs
  unfolding build_lookups build_lookup IsWellFormed
  build_lookups-AreWellFormed [] cs h b = let e : nil ≡ cs = eq_of_some b in rw (← e) tt
  build_lookups-AreWellFormed (none ∷ ls) cs h b = cc
  build_lookups-AreWellFormed (some l ∷ ls) cs ((id, tag, _, _, op, _), h) b =
      let (rest, built, same) = >>=-eq-some (build_lookups ls) _ b in
      let e : clause (build_lookup l) rest ≡ cs = eq_of_some same in
      rw (← e) (
        negate_if-IsWellFormed l.negated _ (op_clause-IsWellFormed l.op _ l.val op),
        build_lookups-AreWellFormed ls rest h built,
      )

  mutual
    unfolding build_elastic_query Accepts

    build-MaybeWellFormed :
        (q : Query Float) (depth : ℕ) (c : Option (Clause Float))
        → Accepts floats get_by_id tenant_id q depth
        → build_elastic_query q ≡ some c
        → MaybeWellFormed c
    build-MaybeWellFormed (query lookups queries op negated) depth c (_, hq, hl) b =
        let (cs, built, rest) = >>=-eq-some (build_lookups (get_or [] lookups)) _ b in
        let (ds, built', same) = >>=-eq-some (build_queries queries) _ rest in
        let e : combine op negated (append_clauses cs ds) ≡ c = eq_of_some same in
        rw (← e) (
          combine-IsWellFormed op negated _ (
            append-AreWellFormed cs ds (build_lookups-AreWellFormed _ cs hl built)
              (build_queries-AreWellFormed queries depth ds hq built')))

    build_queries-AreWellFormed :
        (qs : Queries Float) (depth : ℕ) (cs : Clauses Float)
        → AcceptsQueries floats get_by_id tenant_id qs depth
        → build_queries qs ≡ some cs
        → AreWellFormed cs
    build_queries-AreWellFormed nil_slice depth cs h b =
        let e : nil ≡ cs = eq_of_some b in rw (← e) (nil-AreWellFormed Float)
    build_queries-AreWellFormed (slice qs) depth cs h b = build_items-AreWellFormed qs depth cs h b

    build_items-AreWellFormed :
        (qs : QueryItems Float) (depth : ℕ) (cs : Clauses Float)
        → AcceptsItems floats get_by_id tenant_id qs depth
        → build_items qs ≡ some cs
        → AreWellFormed cs
    build_items-AreWellFormed no_more depth cs h b =
        let e : nil ≡ cs = eq_of_some b in rw (← e) (nil-AreWellFormed Float)
    build_items-AreWellFormed (nil_query qs) depth cs h b = cc
    build_items-AreWellFormed (sub_query q qs) depth cs h b =
        let (c, built, rest) = >>=-eq-some (build_elastic_query q) _ b in
        let (ds, built', same) = >>=-eq-some (build_items qs) _ rest in
        let e : maybe_clause c ds ≡ cs = eq_of_some same in
        rw (← e) (
          maybe-AreWellFormed c ds (build-MaybeWellFormed q (depth + 1) c h.0 built)
            (build_items-AreWellFormed qs depth ds h.1 built'))

returns_of_is_some : {A : Type 0} (o : Option A) → is_some o ≡ true → (a : A) × (o ≡ some a)
returns_of_is_some none h = cc
returns_of_is_some (some a) h = (a, refl)

-- For a query that the validator passes and that holds no nil pointer, building the search query
-- returns, and what it builds, if anything, has only known operators and no empty list of clauses.
pub validated_query-builds :
    (floats : Floats) {E : Type 0} (get_by_id : ℕ → ℕ → Result E Tag) (tenant_id : ℕ)
    (optional : Bool) (q : Query floats.Float)
    → validate floats get_by_id tenant_id optional (some q) ≡ none
    → has_nil q ≡ false
    → (c : Option (Clause floats.Float)) × (build_elastic_query q ≡ some c) × MaybeWellFormed c
validated_query-builds floats get_by_id tenant_id optional q valid whole =
    let e : not (has_nil q) ≡ true = rw whole in
    let (c, built) = returns_of_is_some _ (build_elastic_query-returns q ∙ e) in
    let accepted = (validate_iff floats get_by_id tenant_id optional q).0 valid in
    (c, built, build-MaybeWellFormed floats get_by_id tenant_id q 0 c accepted built)

abbrev nil_queries : {F : Type 0} → ℕ → QueryItems F
nil_queries zero = no_more
nil_queries (suc n) = nil_query (nil_queries n)

abbrev pub only_nil_queries : {F : Type 0} → ℕ → Option Bool → Query F
only_nil_queries n negated = query none (slice (nil_queries (suc n))) query_op_and negated

nil_queries-accepted :
    (floats : Floats) {E : Type 0} (get_by_id : ℕ → ℕ → Result E Tag) (tenant_id : ℕ) (n : ℕ)
    → AcceptsItems floats get_by_id tenant_id (nil_queries n) 0
unfolding AcceptsItems
nil_queries-accepted floats get_by_id tenant_id zero = tt
nil_queries-accepted floats get_by_id tenant_id (suc n) =
    nil_queries-accepted floats get_by_id tenant_id n

-- Whatever the tags, a query whose sub-queries are one or more nil pointers passes the validator,
-- and building its search query panics.
pub nil_query-panics :
    (floats : Floats) {E : Type 0} (get_by_id : ℕ → ℕ → Result E Tag) (tenant_id : ℕ)
    (negated : Option Bool) (n : ℕ)
    → (validate floats get_by_id tenant_id false (some (only_nil_queries n negated)) ≡ none)
      × (build_elastic_query (only_nil_queries {F = floats.Float} n negated) ≡ none)
unfolding build_elastic_query build_lookups
nil_query-panics floats get_by_id tenant_id negated n = (
  (validate_iff floats get_by_id tenant_id false _).1 (
      unfold Accepts in
      ((omega arith, λ p. cc, inl refl), nil_queries-accepted floats get_by_id tenant_id n, tt)),
  refl,
)
