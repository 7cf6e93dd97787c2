-- ===== src/Examples/Sessions.antt =====
-- Logging in, asking and logging out, with a list as the table and a function as the cache.
use mathlib.Core.Path.{subst}
use mirror_backend.Common.{
  ℕ, ◌+◌, String, Bool, true, false, Option, none, some, List, [], ◌∷◌, if◌then◌else◌, str_eq,
  eq_iff, str_eq_of_ne, Result, ok, ◌≡◌, ◌≢◌, refl, sym, inl, inr, arith, ap, ◌⊎◌, Bool-cases,
  eq_of_some, ◌∙◌,
}
use mirror_backend.Text.{show}
use mirror_backend.Text.Splitting.{show-Lacks, Lacks}
use mirror_backend.Session.{
  Session, Tokens, get_token_hash, new_session, stored, Table, Cache, is_user, passes_expire_filter,
  refresh_cache, get_by_token_hash, delete_by_user_id, cache_key, user_key, get_user_id,
}
use mirror_backend.Session.Expiry.{new_session-never_expires}
use mirror_backend.Session.Logout.{IsHash, IsConsistent, logout-forgets, cache_key_injective}
use mirror_backend.Session.Stale.{logout-keeps_older}

first : (Session → Bool) → List Session → Option Session
first p [] = none
first p (r ∷ rs) = let rest = first p rs in if p r then some r else rest

remaining : (Session → Bool) → List Session → List Session
remaining p [] = []
remaining p (r ∷ rs) = let rest = remaining p rs in if p r then rest else r ∷ rest

matching : (Session → Bool) → List Session → List Session
matching p [] = []
matching p (r ∷ rs) = let rest = matching p rs in if p r then r ∷ rest else rest

pick :
    (b : Bool) (s r : Session) (o : Option Session)
    → (if b then some s else o) ≡ some r
    → (b ≡ true) × (s ≡ r) ⊎ (o ≡ some r)
pick true s r o h = inl (refl, cc)
pick false s r o h = inr h

answer_of : {A : Type 0} (a b : A) → ◌≡◌ {A = Result String A} (ok a) (ok b) → a ≡ b
answer_of a b h = cc

first-passes :
    (p : Session → Bool) (db : List Session) (r : Session) → first p db ≡ some r → p r ≡ true
unfolding first
first-passes p [] r h = cc
first-passes p (s ∷ db) r h = elim (pick (p s) s r (first p db) h) [
  | inl (passes, same) ↦ subst (λ x. p x ≡ true) same passes
  | inr later ↦ first-passes p db r later
]

first-remaining :
    (p q : Session → Bool) (db : List Session) (r : Session)
    → first q (remaining p db) ≡ some r
    → p r ≢ true
unfolding first remaining
first-remaining p q [] r h = cc
first-remaining p q (s ∷ db) r h = elim (Bool-cases (p s)) [
  | inl passes ↦
      first-remaining p q db r
        (subst (λ b. first q (if b then remaining p db else s ∷ remaining p db) ≡ some r) passes h)
  | inr fails ↦
      let e =
        subst (λ b. first q (if b then remaining p db else s ∷ remaining p db) ≡ some r) fails h in
      elim (pick (q s) s r (first q (remaining p db)) e) [
        | inl (_, same) ↦ λ t. cc (fails, subst (λ x. p x ≡ true) (sym same) t)
        | inr later ↦ first-remaining p q db r later
      ]
]

abbrev list_table : Table String
list_table = record {
  Db = List Session;
  find = λ p db. ok (first p db);
  find_all = λ p db. ok (matching p db);
  insert = λ r db. ok (7, r ∷ db);
  delete = λ p db. ok (remaining p db);
  find-passes = λ p db r h. first-passes p db r (answer_of _ _ h);
  find-delete = λ p q db db' r gone found.
      first-remaining p q db r
        (subst (λ d. first q d ≡ some r) (sym (answer_of _ _ gone)) (answer_of _ _ found));
}

put : String → Session → (String → Option Session) → String → Option Session
put k v c j = if str_eq j k then some v else c j

drop : String → (String → Option Session) → String → Option Session
drop k c j = if str_eq j k then none else c j

get-put : (k : String) (v : Session) (c : String → Option Session) → put k v c k ≡ some v
unfolding put
get-put k v c = rw ((eq_iff k k).1 refl)

get-put_other :
    (k j : String) (v : Session) (c : String → Option Session) → k ≢ j → put j v c k ≡ c k
unfolding put
get-put_other k j v c h = rw (str_eq_of_ne k j h)

get-drop : (k : String) (c : String → Option Session) → drop k c k ≡ none
unfolding drop
get-drop k c = rw ((eq_iff k k).1 refl)

get-drop_other : (k j : String) (c : String → Option Session) → k ≢ j → drop j c k ≡ c k
unfolding drop
get-drop_other k j c h = rw (str_eq_of_ne k j h)

abbrev map_cache : Cache
map_cache = record {
  Store = String → Option Session;
  get = λ k c. c k;
  set = put;
  del = drop;
  flush = λ c k. none;
  get-flush = λ k c. refl;
  get-set = get-put;
  get-set_other = get-put_other;
  get-del = get-drop;
  get-del_other = get-drop_other;
}

abbrev pub plain : Tokens
plain = record { base64_encode = λ s. s; base64_decode = λ s. some s; sha256 = λ s. s }

abbrev row : String → ℕ → Session
row hash created = record {
  id = some created;
  user_id = some 5;
  token = none;
  token_hash = some hash;
  expire_time = some (created + 7776000);
  create_time = some created;
}

abbrev pub older : Session
older = row "ab" 10

abbrev newer : Session
newer = row "cd" 20

abbrev table_rows : List Session
table_rows = older ∷ newer ∷ []

new_session-never_expires_example :
    passes_expire_filter 99999999 (stored (new_session plain 10 "ab" 5)) ≡ true
new_session-never_expires_example = new_session-never_expires plain 10 99999999 5 "ab" (omega arith)

ab-IsHash : IsHash "ab"
ab-IsHash n p = (subst (Lacks b'a') (sym p) (show-Lacks b'a' n (inr (omega arith)))).0 refl

cd-Lacks : Lacks b'a' "cd"
cd-Lacks = (λ q. omega arith, (λ q. omega arith, tt))

hashes_apart : get_token_hash older ≢ get_token_hash newer
hashes_apart p = (subst (Lacks b'a') (sym p) cd-Lacks).0 refl

rows-matching : matching (passes_expire_filter 30) table_rows ≡ table_rows
unfolding matching passes_expire_filter stored new_session
rows-matching = refl

logout-keeps_older_example :
    (c₁ : String → Option Session) × (c₂ : String → Option Session) × (refresh_cache list_table
        map_cache 30 table_rows
        (λ k. none)
      ≡ ok c₁)
    × (delete_by_user_id list_table map_cache 5 table_rows c₁
        ≡ ok (remaining (is_user 5) table_rows, c₂))
    × (get_by_token_hash list_table map_cache 40
          (get_token_hash older)
          (remaining (is_user 5) table_rows)
          c₂
        ≡ ok older)
logout-keeps_older_example =
    logout-keeps_older list_table map_cache 5 30 40 older newer table_rows
      (remaining (is_user 5) table_rows) (λ k. none) (ap ok rows-matching) refl refl hashes_apart
      ab-IsHash refl

logged_out :
    delete_by_user_id list_table map_cache 5 table_rows (λ k. none)
    ≡ ok (remaining (is_user 5) table_rows, λ k. none)
unfolding delete_by_user_id
logged_out = refl

-- the cache that holds the older session
abbrev one_cached : String → Option Session
one_cached = put (user_key 5) older (put (cache_key "ab") older (λ k. none))

no_other :
    (hash : String) (s : Session)
    → str_eq hash "ab" ≡ false
    → one_cached (cache_key hash) ≡ some s
    → IsHash hash
    → ⊥
no_other hash s differ h is_hash =
    let no_user : cache_key hash ≢ user_key 5 =
      λ q. is_hash 5 (cache_key_injective hash (show 5) q) in
    let no_ab : cache_key hash ≢ cache_key "ab" =
      λ q. cc (differ, (eq_iff hash "ab").1 (cache_key_injective hash "ab" q)) in
    cc (
      h,
      get-put_other (cache_key hash) (user_key 5) older (put (cache_key "ab") older (λ k. none))
          no_user,
      get-put_other (cache_key hash) (cache_key "ab") older (λ k. none) no_ab,
    )

ab_cached : one_cached (cache_key "ab") ≡ some older
unfolding put show
ab_cached = refl

five_cached : one_cached (user_key 5) ≡ some older
unfolding put show
five_cached = refl

one_cached-IsConsistent : IsConsistent list_table map_cache one_cached
one_cached-IsConsistent hash s is_hash h = elim (Bool-cases (str_eq hash "ab")) [
  | inl same ↦
      let e = (eq_iff hash "ab").0 same in
      let here : older ≡ s =
        eq_of_some (sym ab_cached ∙ ap (λ t. one_cached (cache_key t)) (sym e) ∙ h) in
      subst (λ x. (get_token_hash x ≡ hash) × (one_cached (user_key (get_user_id x)) ≡ some x)) here
        (sym e, five_cached)
  | inr differ ↦ absurd (no_other hash s differ h is_hash)
]

abbrev others : Session
others = record newer { user_id = some 6; token_hash = some "ef" }

-- the cache after the log out
abbrev forgotten : String → Option Session
forgotten = drop (cache_key "ab") (drop (user_key 5) one_cached)

logged_out_one :
    delete_by_user_id list_table map_cache 5 (older ∷ others ∷ []) one_cached
    ≡ ok (others ∷ [], forgotten)
unfolding delete_by_user_id remaining
logged_out_one = rw five_cached refl

found_other : get_by_token_hash list_table map_cache 30 "ef" (others ∷ []) forgotten ≡ ok others
unfolding get_by_token_hash first passes_expire_filter put drop show
found_other = refl

ef-IsHash : IsHash "ef"
ef-IsHash n p = (subst (Lacks b'e') (sym p) (show-Lacks b'e' n (inr (omega arith)))).0 refl

logout-forgets_example : others.user_id ≢ some 5
logout-forgets_example =
    logout-forgets list_table map_cache 5 30 "ef" (older ∷ others ∷ []) (others ∷ []) one_cached
      forgotten others one_cached-IsConsistent ef-IsHash logged_out_one found_other
