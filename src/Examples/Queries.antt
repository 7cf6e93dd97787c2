-- ===== src/Examples/Queries.antt =====
-- Segment queries: what is accepted, built and found.
use mirror_backend.Common.{
  ℕ, String, Bool, true, false, not, ◌&&◌, ◌||◌, Option, none, some, List, [], ◌∷◌, if◌then◌else◌,
  any, str_eq, Result, ok, ◌≡◌, ◌↔◌, refl, ap,
}
use mirror_backend.Text.{show}
use mirror_backend.Goutil.{contains_str}
use mirror_backend.Value.{Value, text, array, end, item, values, Floats}
use mirror_backend.Entity.Tag.{Tag, is_valid_tag_value, tag_value_type_str, tag_status_normal}
use mirror_backend.Query.{
  Lookup, Query, query, nil_slice, slice, no_more, sub_query, query_op_and, query_op_or,
}
use mirror_backend.Query.Validate.{validate, validate_lookup, validate_query}
use mirror_backend.Query.Validate.Sound.{Accepts, validate_iff}
use mirror_backend.Query.Elastic.{
  Clause, Bound, gt, lt, gte, lte, term, range, terms, must_not, should, must, no_clause, Clauses,
  nil, clause, build_elastic_query,
}
use mirror_backend.Query.Elastic.Meaning.{
  SearchEngine, truths, every, some_of, clause_truth, meaning, build_elastic_query-meaning,
}
use mirror_backend.Query.Elastic.Returns.{has_nil, has_nil_lookup}
use mirror_backend.Query.Elastic.Formed.{MaybeWellFormed}
use mirror_backend.Query.Elastic.Accepted.{
  only_nil_queries, validated_query-builds, nil_query-panics,
}

abbrev whole_floats : Floats
whole_floats = record {
  Float = ℕ;
  print_float = show;
  print_map = λ ms. "map[]";
  parse_float = λ s. none;
}

-- The values are texts, of which no order is asked for.
abbrev Fields : Type 0
Fields = String → List String

abbrev is_text : String → Value ℕ → Bool
is_text s (text t) = str_eq s t
is_text s _ = false

abbrev never : String → Value ℕ → Bool
never s v = false

abbrev is_among : String → Value ℕ → Bool
is_among s (array vs) = any (is_text s) (values vs)
is_among s _ = false

abbrev in_bound : Bound → String → Value ℕ → Bool
in_bound gt s v = never s v
in_bound lt s v = never s v
in_bound gte s v = never s v || is_text s v
in_bound lte s v = never s v || is_text s v

mutual
  matches : Clause ℕ → Fields → Bool
  matches (term field v) d = any (λ s. is_text s v) (d field)
  matches (range field b v) d = any (λ s. in_bound b s v) (d field)
  matches (terms field v) d = any (λ s. is_among s v) (d field)
  matches (must_not c) d = not (matches c d)
  matches (should cs) d = matches_any cs d
  matches (must cs) d = matches_all cs d
  matches no_clause d = false

  matches_any : Clauses ℕ → Fields → Bool
  matches_any nil d = false
  matches_any (clause c cs) d = matches c d || matches_any cs d

  matches_all : Clauses ℕ → Fields → Bool
  matches_all nil d = true
  matches_all (clause c cs) d = matches c d && matches_all cs d

matches_all_lem :
    (cs : Clauses ℕ) (d : Fields) → matches_all cs d ≡ every (truths (λ e. matches e d) cs)
unfolding matches_all
matches_all_lem nil d = refl
matches_all_lem (clause c cs) d = ap (λ b. matches c d && b) (matches_all_lem cs d)

matches_any_lem :
    (cs : Clauses ℕ) (d : Fields) → matches_any cs d ≡ some_of (truths (λ e. matches e d) cs)
unfolding matches_any
matches_any_lem nil d = refl
matches_any_lem (clause c cs) d = ap (λ b. matches c d || b) (matches_any_lem cs d)

matches-term :
    (field : String) (v : Value ℕ) (d : Fields)
    → matches (term field v) d ≡ any (λ s. is_text s v) (d field)
unfolding matches
matches-term field v d = refl

matches-range :
    (field : String) (b : Bound) (v : Value ℕ) (d : Fields)
    → matches (range field b v) d ≡ any (λ s. in_bound b s v) (d field)
unfolding matches
matches-range field b v d = refl

matches-terms :
    (field : String) (v : Value ℕ) (d : Fields)
    → matches (terms field v) d ≡ any (λ s. is_among s v) (d field)
unfolding matches
matches-terms field v d = refl

matches-must_not : (c : Clause ℕ) (d : Fields) → matches (must_not c) d ≡ not (matches c d)
unfolding matches
matches-must_not c d = refl

matches-must :
    (c : Clause ℕ) (cs : Clauses ℕ) (d : Fields)
    → matches (must (clause c cs)) d ≡ every (truths (λ e. matches e d) (clause c cs))
unfolding matches
matches-must c cs d = matches_all_lem (clause c cs) d

matches-should :
    (c : Clause ℕ) (cs : Clauses ℕ) (d : Fields)
    → matches (should (clause c cs)) d ≡ some_of (truths (λ e. matches e d) (clause c cs))
unfolding matches
matches-should c cs d = matches_any_lem (clause c cs) d

abbrev text_engine : SearchEngine ℕ
text_engine = record {
  Document = Fields;
  Item = String;
  values = λ d field. d field;
  equals = is_text;
  above = never;
  below = never;
  is_one_of = is_among;
  holds = matches;
  holds-term = matches-term;
  holds-gt = λ field v d. matches-range field gt v d;
  holds-lt = λ field v d. matches-range field lt v d;
  holds-gte = λ field v d. matches-range field gte v d;
  holds-lte = λ field v d. matches-range field lte v d;
  holds-terms = matches-terms;
  holds-must_not = λ c d h. matches-must_not c d;
  holds-must = λ c cs d h. matches-must c cs d;
  holds-should = λ c cs d h. matches-should c cs d;
}

abbrev city_tag : Tag
city_tag = record {
  id = some 7;
  name = some "city";
  tag_desc = some "where the user lives";
  enum = none;
  value_type = tag_value_type_str;
  status = tag_status_normal;
  ext_info = none;
  creator_id = some 1;
  tenant_id = some 1;
  create_time = some 0;
  update_time = some 0;
}

abbrev find_tag : ℕ → ℕ → Result String Tag
find_tag tenant_id id = ok city_tag

abbrev is_city : Lookup ℕ
is_city = record { tag_id = some 7; op = "="; negated = some true; val = text "Paris" }

abbrev in_cities : Lookup ℕ
in_cities = record {
  tag_id = some 7;
  op = "in";
  negated = none;
  val = array (item (text "Rome") (item (text "Oslo") end));
}

abbrev cities : Query ℕ
cities = query (some (some is_city ∷ some in_cities ∷ [])) nil_slice query_op_or none

abbrev both : Query ℕ
both = query none (slice (sub_query cities (sub_query cities no_more))) query_op_and none

both-valid : validate whole_floats find_tag 1 false (some both) ≡ none
unfolding validate validate_query validate_lookup contains_str is_valid_tag_value
both-valid = refl

has_nil-both : has_nil both ≡ false
unfolding has_nil has_nil_lookup
has_nil-both = refl

abbrev in_rome : Fields
in_rome field = if str_eq field "tag_7" then "Rome" ∷ [] else []

build_elastic_query-meaning_example :
    (c : Option (Clause ℕ)) × (build_elastic_query both ≡ some c)
    × (clause_truth text_engine c in_rome ≡ meaning text_engine both in_rome)
build_elastic_query-meaning_example =
    build_elastic_query-meaning whole_floats find_tag 1 false both text_engine in_rome both-valid
      has_nil-both

validate_iff_example :
    (validate whole_floats find_tag 1 false (some both) ≡ none)
    ↔ Accepts whole_floats find_tag 1 both 0
validate_iff_example = validate_iff whole_floats find_tag 1 false both

validated_query-builds_example :
    (c : Option (Clause ℕ)) × (build_elastic_query both ≡ some c) × MaybeWellFormed c
validated_query-builds_example =
    validated_query-builds whole_floats find_tag 1 false both both-valid has_nil-both

nil_query-panics_example :
    (validate whole_floats find_tag 1 false (some (only_nil_queries 0 none)) ≡ none)
    × (build_elastic_query (only_nil_queries {F = ℕ} 0 none) ≡ none)
nil_query-panics_example = nil_query-panics whole_floats find_tag 1 none 0
