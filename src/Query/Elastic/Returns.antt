-- ===== src/Query/Elastic/Returns.antt =====
-- When the query builder returns: exactly where it meets no nil pointer.
use mathlib.Core.Path.{ap₂}
use mirror_backend.Common.{
  Bool, true, false, not, ◌&&◌, ◌||◌, Option, none, some, List, [], ◌∷◌, get_or, is_some, ◌≡◌, refl,
  ◌>>=◌, ◌∙◌,
}
use mirror_backend.Query.{
  Lookup, Query, query, Queries, nil_slice, slice, QueryItems, no_more, nil_query, sub_query,
}
use mirror_backend.Query.Elastic.{build_lookups, build_elastic_query, build_queries, build_items}

is_some-bind-some :
    {A B : Type 0} (m : Option A) (f : A → B) → is_some (m >>= λ a. some (f a)) ≡ is_some m
is_some-bind-some none f = refl
is_some-bind-some (some a) f = refl

is_some-bind₂ :
    {A B C : Type 0} (m : Option A) (n : Option B) (f : A → B → C)
    → is_some (m >>= λ a. n >>= λ b. some (f a b)) ≡ (is_some m && is_some n)
is_some-bind₂ none n f = refl
is_some-bind₂ (some a) n f = is_some-bind-some n (f a)

not-or : (a b : Bool) → (not a && not b) ≡ not (a || b)
not-or true b = refl
not-or false b = refl

module _ {F : Type 0} where
  -- a nil pointer among the lookups or the sub-queries, at any depth
  unfoldable pub has_nil_lookup : List (Option (Lookup F)) → Bool
  has_nil_lookup [] = false
  has_nil_lookup (none ∷ ls) = true
  has_nil_lookup (some l ∷ ls) = has_nil_lookup ls

  unfoldable mutual
    pub has_nil : Query F → Bool
    has_nil (query lookups queries op negated) =
        has_nil_lookup (get_or [] lookups) || queries_have_nil queries

    pub queries_have_nil : Queries F → Bool
    queries_have_nil nil_slice = false
    queries_have_nil (slice qs) = items_have_nil qs

    pub items_have_nil : QueryItems F → Bool
    items_have_nil no_more = false
    items_have_nil (nil_query qs) = true
    items_have_nil (sub_query q qs) = has_nil q || items_have_nil qs

  is_some-build_lookups :
      (ls : List (Option (Lookup F))) → is_some (build_lookups ls) ≡ not (has_nil_lookup ls)
  unfolding build_lookups has_nil_lookup
  is_some-build_lookups [] = refl
  is_some-build_lookups (none ∷ ls) = refl
  is_some-build_lookups (some l ∷ ls) =
      is_some-bind-some (build_lookups ls) _ ∙ is_some-build_lookups ls

  mutual
    unfolding build_elastic_query has_nil

    is_some-build : (q : Query F) → is_some (build_elastic_query q) ≡ not (has_nil q)
    is_some-build (query lookups queries op negated) =
        is_some-bind₂ (build_lookups (get_or [] lookups)) (build_queries queries) _
        ∙ ap₂ ◌&&◌ (is_some-build_lookups (get_or [] lookups)) (is_some-build_queries queries)
        ∙ not-or (has_nil_lookup (get_or [] lookups)) (queries_have_nil queries)

    is_some-build_queries :
        (qs : Queries F) → is_some (build_queries qs) ≡ not (queries_have_nil qs)
    is_some-build_queries nil_slice = refl
    is_some-build_queries (slice qs) = is_some-build_items qs

    is_some-build_items : (qs : QueryItems F) → is_some (build_items qs) ≡ not (items_have_nil qs)
    is_some-build_items no_more = refl
    is_some-build_items (nil_query qs) = refl
    is_some-build_items (sub_query q qs) =
        is_some-bind₂ (build_elastic_query q) (build_items qs) _
        ∙ ap₂ ◌&&◌ (is_some-build q) (is_some-build_items qs)
        ∙ not-or (has_nil q) (items_have_nil qs)

-- Building the search query of a query returns, without a panic, exactly when the query holds no
-- nil lookup and no nil sub-query at any depth.
pub build_elastic_query-returns :
    {F : Type 0} (q : Query F) → is_some (build_elastic_query q) ≡ not (has_nil q)
build_elastic_query-returns q = is_some-build q
