-- ===== src/Query/Elastic/Meaning.antt =====
-- What a search with the built query finds. The search engine is a parameter: whether a clause
-- holds of a document, with the documented meaning of its `bool` clauses as laws.
use Prim.Native.String.{◌++◌ as str_append}
use mathlib.Core.Path.{ap₂, subst}
use mirror_backend.Common.{
  ℕ, String, Bool, true, false, not, ◌||◌, Option, none, some, List, [], ◌∷◌, ◌++◌, if◌then◌else◌,
  str_eq, get_or, all, any, Result, ◌≡◌, ◌∙◌, refl, sym, ap, eq_of_some, >>=-eq-some, Bool-cases,
  inl, inr,
}
use mirror_backend.Text.{show}
use mirror_backend.Value.{Value, Floats}
use mirror_backend.Entity.Tag.{Tag}
use mirror_backend.Query.Validate.{validate}
use mirror_backend.Query.Elastic.Returns.{has_nil}
use mirror_backend.Query.Elastic.Accepted.{validated_query-builds}
use mirror_backend.Query.Elastic.Formed.{
  IsWellFormed, AreWellFormed, MaybeWellFormed, unknown-op, IsWellFormed-negate_if,
  AreWellFormed-append, AreWellFormed-maybe, AreWellFormed-combine,
}
use mirror_backend.Query.{
  Lookup, QueryOp, query_op_or, Query, query, Queries, nil_slice, slice, QueryItems, no_more,
  nil_query, sub_query,
}
use mirror_backend.Query.Elastic.{
  Clause, term, range, terms, gt, lt, gte, lte, must_not, should, must, Clauses, nil, clause,
  get_tag_field, append_clauses, maybe_clause, op_clause, negate_if, build_lookup, build_lookups,
  combine, build_elastic_query, build_queries, build_items,
}

-- the truth values of some clauses, in order
abbrev pub truths : {F : Type 0} → (Clause F → Bool) → Clauses F → List Bool
truths p nil = []
truths p (clause c cs) = p c ∷ truths p cs

abbrev pub every : List Bool → Bool
every = all (λ b. b)

abbrev pub some_of : List Bool → Bool
some_of = any (λ b. b)

abbrev pub flip_if : Bool → Bool → Bool
flip_if true b = not b
flip_if false b = b

-- `values` are what a field of a document holds, none or several, and the leaves of a query are
-- documented by how one of them compares with the value asked for.
pub record SearchEngine (F : Type 0) : Type 1 where
  pub Document : Type 0
  pub Item : Type 0
  pub values : Document → String → List Item
  pub equals : Item → Value F → Bool
  pub above : Item → Value F → Bool
  pub below : Item → Value F → Bool
  pub is_one_of : Item → Value F → Bool
  pub holds : Clause F → Document → Bool
  pub holds-term :
      (field : String) (v : Value F) (d : Document)
      → holds (term field v) d ≡ any (λ x. equals x v) (values d field)
  pub holds-gt :
      (field : String) (v : Value F) (d : Document)
      → holds (range field gt v) d ≡ any (λ x. above x v) (values d field)
  pub holds-lt :
      (field : String) (v : Value F) (d : Document)
      → holds (range field lt v) d ≡ any (λ x. below x v) (values d field)
  pub holds-gte :
      (field : String) (v : Value F) (d : Document)
      → holds (range field gte v) d ≡ any (λ x. above x v || equals x v) (values d field)
  pub holds-lte :
      (field : String) (v : Value F) (d : Document)
      → holds (range field lte v) d ≡ any (λ x. below x v || equals x v) (values d field)
  pub holds-terms :
      (field : String) (v : Value F) (d : Document)
      → holds (terms field v) d ≡ any (λ x. is_one_of x v) (values d field)
  pub holds-must_not :
      (c : Clause F) (d : Document) → IsWellFormed c → holds (must_not c) d ≡ not (holds c d)
  pub holds-must :
      (c : Clause F) (cs : Clauses F) (d : Document)
      → AreWellFormed (clause c cs)
      → holds (must (clause c cs)) d ≡ every (truths (λ e. holds e d) (clause c cs))
  pub holds-should :
      (c : Clause F) (cs : Clauses F) (d : Document)
      → AreWellFormed (clause c cs)
      → holds (should (clause c cs)) d ≡ some_of (truths (λ e. holds e d) (clause c cs))

module _ {F : Type 0} (engine : SearchEngine F) where
  open engine use {
    Document, Item, values, equals, above, below, is_one_of, holds, holds-term, holds-gt, holds-lt,
    holds-gte, holds-lte, holds-terms, holds-must_not, holds-must, holds-should,
  }

  -- The specification: a query that constrains nothing is `none`; any other is the "or" or the
  -- "and" of its lookups and of its sub-queries that constrain something, negated if it says so.
  abbrev pub join_truths : QueryOp → Option Bool → List Bool → Option Bool
  join_truths op negated [] = none
  join_truths op negated ts =
      some (flip_if (get_or false negated) (if str_eq op query_op_or then some_of ts else every ts))

  -- how a lookup's operator compares a value of the document with that of the lookup
  pub compares : String → Item → Value F → Bool
  compares op x v =
      if str_eq op "="
      then equals x v
      else if str_eq op ">"
      then above x v
      else if str_eq op "<"
      then below x v
      else if str_eq op ">="
      then above x v || equals x v
      else if str_eq op "<="
      then below x v || equals x v
      else if str_eq op "in"
      then is_one_of x v
      else false

  -- a value that the document has for the tag compares as the lookup says
  pub lookup_truth : Lookup F → Document → Bool
  lookup_truth l d =
      flip_if (get_or false l.negated)
        (any (λ x. compares l.op x l.val) (values d (str_append "tag_" (show (get_or 0 l.tag_id)))))

  pub lookup_truths : List (Option (Lookup F)) → Document → List Bool
  lookup_truths [] d = []
  lookup_truths (none ∷ ls) d = lookup_truths ls d
  lookup_truths (some l ∷ ls) d = lookup_truth l d ∷ lookup_truths ls d

  abbrev pub maybe_truth : Option Bool → List Bool → List Bool
  maybe_truth none ts = ts
  maybe_truth (some t) ts = t ∷ ts

  mutual
    pub meaning : Query F → Document → Option Bool
    meaning (query lookups queries op negated) d =
        join_truths op negated (lookup_truths (get_or [] lookups) d ++ meanings queries d)

    pub meanings : Queries F → Document → List Bool
    meanings nil_slice d = []
    meanings (slice qs) d = item_meanings qs d

    pub item_meanings : QueryItems F → Document → List Bool
    item_meanings no_more d = []
    item_meanings (nil_query qs) d = item_meanings qs d
    item_meanings (sub_query q qs) d = maybe_truth (meaning q d) (item_meanings qs d)

  abbrev pub clause_truth : Option (Clause F) → Document → Option Bool
  clause_truth none d = none
  clause_truth (some c) d = some (holds c d)

  holds-op_clause :
      (op : String) (field : String) (v : Value F) (d : Document)
      → IsWellFormed (op_clause op field v)
      → holds (op_clause op field v) d ≡ any (λ x. compares op x v) (values d field)
  unfolding op_clause compares IsWellFormed
  holds-op_clause op field v d h = elim (Bool-cases (str_eq op "=")) [
    | inl e ↦ rw e (holds-term field v d)
    | inr n1 ↦ elim (Bool-cases (str_eq op ">")) [
      | inl e ↦ rw (n1, e) (holds-gt field v d)
      | inr n2 ↦ elim (Bool-cases (str_eq op "<")) [
        | inl e ↦ rw (n1, n2, e) (holds-lt field v d)
        | inr n3 ↦ elim (Bool-cases (str_eq op ">=")) [
          | inl e ↦ rw (n1, n2, n3, e) (holds-gte field v d)
          | inr n4 ↦ elim (Bool-cases (str_eq op "<=")) [
            | inl e ↦ rw (n1, n2, n3, n4, e) (holds-lte field v d)
            | inr n5 ↦ elim (Bool-cases (str_eq op "in")) [
              | inl e ↦ rw (n1, n2, n3, n4, n5, e) (holds-terms field v d)
              | inr n6 ↦ absurd (unknown-op op field v (n1, n2, n3, n4, n5, n6) h)
            ]
          ]
        ]
      ]
    ]
  ]

  holds-negate_if :
      (negated : Option Bool) (c : Clause F) (d : Document)
      → IsWellFormed c
      → holds (negate_if negated c) d ≡ flip_if (get_or false negated) (holds c d)
  holds-negate_if none c d h = refl
  holds-negate_if (some true) c d h = holds-must_not c d h
  holds-negate_if (some false) c d h = refl

  truths-append :
      (cs ds : Clauses F) (d : Document)
      → truths (λ e. holds e d) (append_clauses cs ds)
        ≡ truths (λ e. holds e d) cs ++ truths (λ e. holds e d) ds
  truths-append nil ds d = refl
  truths-append (clause c cs) ds d = rw (truths-append cs ds d)

  truths-build_lookups :
      (ls : List (Option (Lookup F))) (cs : Clauses F) (d : Document)
      → build_lookups ls ≡ some cs
      → AreWellFormed cs
      → truths (λ e. holds e d) cs ≡ lookup_truths ls d
  unfolding build_lookups build_lookup lookup_truths lookup_truth get_tag_field IsWellFormed
  truths-build_lookups [] cs d h k = let e : nil ≡ cs = eq_of_some h in rw (← e)
  truths-build_lookups (none ∷ ls) cs d h k = cc
  truths-build_lookups (some l ∷ ls) cs d h k =
      let (rest, built, same) = >>=-eq-some (build_lookups ls) _ h in
      let e : clause (build_lookup l) rest ≡ cs = eq_of_some same in
      let formed : AreWellFormed (clause (build_lookup l) rest) = subst AreWellFormed (sym e) k in
      let leaf = op_clause l.op (get_tag_field (get_or 0 l.tag_id)) l.val in
      let formed_leaf : IsWellFormed leaf = IsWellFormed-negate_if l.negated leaf formed.0 in
      rw (← e) (
        ap₂ ◌∷◌
          (holds-negate_if l.negated leaf d formed_leaf
            ∙ ap (flip_if (get_or false l.negated)) (holds-op_clause l.op _ l.val d formed_leaf))
          (truths-build_lookups ls rest d built formed.1))

  clause_truth-combine :
      (op : QueryOp) (negated : Option Bool) (cs : Clauses F) (d : Document)
      → AreWellFormed cs
      → clause_truth (combine op negated cs) d ≡ join_truths op negated (truths (λ e. holds e d) cs)
  unfolding combine IsWellFormed
  clause_truth-combine op negated nil d h = refl
  clause_truth-combine op negated (clause c cs) d h = elim (Bool-cases (str_eq op query_op_or)) [
    | inl disjunction ↦ rw disjunction (
        ap some
          (holds-negate_if negated _ d ((λ p. cc), h) ∙ ap (flip_if _) (holds-should c cs d h)))
    | inr conjunction ↦ rw conjunction (
        ap some (holds-negate_if negated _ d ((λ p. cc), h) ∙ ap (flip_if _) (holds-must c cs d h)))
  ]

  truths-maybe_clause :
      (c : Option (Clause F)) (cs : Clauses F) (t : Option Bool) (ts : List Bool) (d : Document)
      → clause_truth c d ≡ t
      → truths (λ e. holds e d) cs ≡ ts
      → truths (λ e. holds e d) (maybe_clause c cs) ≡ maybe_truth t ts
  truths-maybe_clause none cs t ts d h k = rw (← h) k
  truths-maybe_clause (some c) cs t ts d h k = rw (← h, ← k)

  mutual
    unfolding build_elastic_query meaning

    truth-build :
        (q : Query F) (c : Option (Clause F)) (d : Document)
        → build_elastic_query q ≡ some c
        → MaybeWellFormed c
        → clause_truth c d ≡ meaning q d
    truth-build (query lookups queries op negated) c d h k =
        let (cs, built, rest) = >>=-eq-some (build_lookups (get_or [] lookups)) _ h in
        let (ds, built', same) = >>=-eq-some (build_queries queries) _ rest in
        let e : combine op negated (append_clauses cs ds) ≡ c = eq_of_some same in
        let formed : AreWellFormed (append_clauses cs ds) =
          AreWellFormed-combine op negated _ (subst MaybeWellFormed (sym e) k) in
        let (left, right) = AreWellFormed-append cs ds formed in
        rw (← e) (
          clause_truth-combine op negated (append_clauses cs ds) d formed
          ∙ ap (join_truths op negated) (
              truths-append cs ds d
              ∙ ap₂ ◌++◌ (truths-build_lookups _ cs d built left)
                  (truths-build_queries queries ds d built' right)))

    truths-build_queries :
        (qs : Queries F) (cs : Clauses F) (d : Document)
        → build_queries qs ≡ some cs
        → AreWellFormed cs
        → truths (λ e. holds e d) cs ≡ meanings qs d
    truths-build_queries nil_slice cs d h k = let e : nil ≡ cs = eq_of_some h in rw (← e)
    truths-build_queries (slice qs) cs d h k = truths-build_items qs cs d h k

    truths-build_items :
        (qs : QueryItems F) (cs : Clauses F) (d : Document)
        → build_items qs ≡ some cs
        → AreWellFormed cs
        → truths (λ e. holds e d) cs ≡ item_meanings qs d
    truths-build_items no_more cs d h k = let e : nil ≡ cs = eq_of_some h in rw (← e)
    truths-build_items (nil_query qs) cs d h k = cc
    truths-build_items (sub_query q qs) cs d h k =
        let (c, built, rest) = >>=-eq-some (build_elastic_query q) _ h in
        let (ds, built', same) = >>=-eq-some (build_items qs) _ rest in
        let e : maybe_clause c ds ≡ cs = eq_of_some same in
        let (first, others) = AreWellFormed-maybe c ds (subst AreWellFormed (sym e) k) in
        rw (← e) (
          truths-maybe_clause c ds _ _ d (truth-build q c d built first)
            (truths-build_items qs ds d built' others))

-- For a query that the validator passes and that holds no nil pointer, building the search query
-- returns, and the search engine finds exactly the documents that the query means: the result is
-- nil where the query constrains nothing, and otherwise a clause that holds of a document just where
-- the query is true of it.
pub build_elastic_query-meaning :
    (floats : Floats) {E : Type 0} (get_by_id : ℕ → ℕ → Result E Tag) (tenant_id : ℕ)
    (optional : Bool) (q : Query floats.Float) (engine : SearchEngine floats.Float)
    (d : engine.Document)
    → validate floats get_by_id tenant_id optional (some q) ≡ none
    → has_nil q ≡ false
    → (c : Option (Clause floats.Float)) × (build_elastic_query q ≡ some c)
      × (clause_truth engine c d ≡ meaning engine q d)
build_elastic_query-meaning floats get_by_id tenant_id optional q engine d valid whole =
    let (c, built, formed) =
      validated_query-builds floats get_by_id tenant_id optional q valid whole in
    (c, built, truth-build engine q c d built formed)
