-- ===== src/Session/Logout.antt =====
-- What logging out does to the sessions of a user.
use Prim.Native.String.{◌++◌}
use text.Mathlib.TextLemmas.{nil-append, cons-append}
use mirror_backend.Common.{
  ℕ, String, Bool, true, Option, none, some, ==_iff, get_or, Result, ok, err, str_eq, eq_iff, ◌≡◌,
  ◌≢◌, ◌⊎◌, inl, inr, ◌∙◌, sym, ap, refl, Bool-cases, ◌&&◌,
}
use mirror_backend.Text.{show}
use mirror_backend.Session.{
  Session, get_token_hash, get_user_id, Table, Cache, SessionError, cache_key, user_key, is_user,
  has_hash, passes_expire_filter, forget, find_result, from_cache, get_by_token_hash,
  delete_by_user_id,
}

-- a token's hash that is no decimal number, as a SHA-256 in hexadecimal should be
abbrev pub IsHash : String → Type 0
IsHash hash = (n : ℕ) → hash ≢ show n

append_injective : (p a b : String) → p ++ a ≡ p ++ b → a ≡ b
append_injective String.[] a b h = sym (nil-append a) ∙ h ∙ nil-append b
append_injective (String.◌∷◌ c p) a b h =
    let e : String.◌∷◌ c (p ++ a) ≡ String.◌∷◌ c (p ++ b) =
      sym (cons-append c p a) ∙ h ∙ cons-append c p b in
    append_injective p a b cc

pub cache_key_injective : (a b : String) → cache_key a ≡ cache_key b → a ≡ b
cache_key_injective a b h = append_injective "session:0:" a b h

module _ {E : Type 0} (table : Table E) (cache : Cache) where
  open table use {Db, find, find_all, delete, find-delete}
  open cache use {Store, get, get-flush, get-set, get-set_other, get-del, get-del_other}

  -- each session under a token's hash has that hash and is its user's one session
  abbrev pub IsConsistent : Store → Type 0
  IsConsistent c =
      (hash : String) (s : Session)
      → IsHash hash
      → get (cache_key hash) c ≡ some s
      → (get_token_hash s ≡ hash) × (get (user_key (get_user_id s)) c ≡ some s)

  -- what the table alone says after a logout
  find-logged_out :
      (user_id : ℕ) (q : Session → Bool) (db db' : Db) (s : Session)
      → delete (is_user user_id) db ≡ ok db'
      → find q db' ≡ ok (some s)
      → s.user_id ≢ some user_id
  find-logged_out user_id q db db' s gone found p =
      let passes : is_user user_id s ≡ true = rw p ((==_iff user_id user_id).1 refl) in
      find-delete (is_user user_id) q db db' s gone found passes

  delete_by_user_id-returned :
      (user_id : ℕ) (db db' : Db) (c c' : Store)
      → delete_by_user_id table cache user_id db c ≡ ok (db', c')
      → (delete (is_user user_id) db ≡ ok db')
        × (c' ≡ forget table cache user_id (get (user_key user_id) c) c)
  unfolding delete_by_user_id
  delete_by_user_id-returned user_id db db' c c' h = go (delete (is_user user_id) db) refl h
    where
      go :
          (r : Result E Db)
          → delete (is_user user_id) db ≡ r
          → (elim r as (λ _. Result E (Db × Store)) [
            | err e ↦ err e
            | ok d ↦ ok (d, forget table cache user_id (get (user_key user_id) c) c)
          ])
            ≡ ok (db', c')
          → (delete (is_user user_id) db ≡ ok db')
            × (c' ≡ forget table cache user_id (get (user_key user_id) c) c)
      go (ok d) e k = (cc, cc)
      go (err x) e k = cc

  found_in :
      (r : Result E (Option Session)) (s : Session)
      → find_result table cache r ≡ ok s
      → r ≡ ok (some s)
  found_in (ok (some row)) s h = cc
  found_in (ok none) s h = cc
  found_in (err e) s h = cc

  from_cache-found :
      (o : Option Session) (r : Result (SessionError E) Session) (s : Session)
      → from_cache table cache o r ≡ ok s
      → (o ≡ some s) ⊎ (r ≡ ok s)
  from_cache-found none r s h = inr h
  from_cache-found (some v) r s h = inl cc

  found-by_hash :
      (now : ℕ) (hash : String) (db : Db) (c : Store) (s : Session)
      → get_by_token_hash table cache now hash db c ≡ ok s
      → (get (cache_key hash) c ≡ some s)
        ⊎ (find (λ row. has_hash hash row && passes_expire_filter now row) db ≡ ok (some s))
  unfolding get_by_token_hash
  found-by_hash now hash db c s h = elim (from_cache-found (get (cache_key hash) c) _ s h) [
    | inl hit ↦ inl hit
    | inr row ↦ inr (found_in _ s row)
  ]

  forgotten :
      (user_id : ℕ) (hash : String) (c : Store) (s : Session)
      → IsConsistent c
      → IsHash hash
      → get (cache_key hash) (forget table cache user_id (get (user_key user_id) c) c) ≡ some s
      → s.user_id ≢ some user_id
  forgotten user_id hash c s k is_hash hit p = go (get (user_key user_id) c) refl hit
    where
      same_user : get_user_id s ≡ user_id
      same_user = ap (get_or 0) p

      only_session : get (cache_key hash) c ≡ some s → get (user_key user_id) c ≡ some s
      only_session h = ap (λ u. get (user_key u) c) (sym same_user) ∙ (k hash s is_hash h).1

      go :
          (slot : Option Session)
          → get (user_key user_id) c ≡ slot
          → get (cache_key hash) (forget table cache user_id slot c) ≡ some s
          → ⊥
      go none e h = cc (e, only_session h)
      go (some other) e h = elim (Bool-cases (str_eq hash (get_token_hash other))) [
        | inl same ↦
            let same_hash = (eq_iff hash (get_token_hash other)).0 same in
            let none_left =
              get-del (cache_key (get_token_hash other)) (cache.del (user_key user_id) c) in
            cc (ap cache_key same_hash, none_left, h)
        | inr differ ↦
            let apart : cache_key hash ≢ cache_key (get_token_hash other) =
              λ q. cc (differ, (eq_iff hash _).1 (cache_key_injective hash _ q)) in
            let no_user : cache_key hash ≢ user_key user_id =
              λ q. is_hash user_id (cache_key_injective hash _ q) in
            let before = sym (get-del_other _ _ c no_user) ∙ sym (get-del_other _ _ _ apart) ∙ h in
            let same_session : some other ≡ some s = sym e ∙ only_session before in
            let same_hash : hash ≡ get_token_hash other =
              sym (k hash s is_hash before).0
              ∙ ap (λ o. get_token_hash (get_or s o)) (sym same_session) in
            apart (ap cache_key same_hash)
      ]

  -- If the cache is consistent, no token whose hash is not a decimal number gives a session of a
  -- user who has just logged out.
  pub logout-forgets :
      (user_id now : ℕ) (hash : String) (db db' : Db) (c c' : Store) (s : Session)
      → IsConsistent c
      → IsHash hash
      → delete_by_user_id table cache user_id db c ≡ ok (db', c')
      → get_by_token_hash table cache now hash db' c' ≡ ok s
      → s.user_id ≢ some user_id
  logout-forgets user_id now hash db db' c c' s h k out found =
      let (gone, cache_left) = delete_by_user_id-returned user_id db db' c c' out in
      elim (found-by_hash now hash db' c' s found) [
        | inl hit ↦
            forgotten user_id hash c s h k (ap (get (cache_key hash)) (sym cache_left) ∙ hit)
        | inr row ↦ find-logged_out user_id _ db db' s gone row
      ]
