-- ===== src/Session/Stale.antt =====
-- A session that outlives its user's logout.
use mirror_backend.Common.{ℕ, Option, some, [], ◌∷◌, get_or, ok, ◌≡◌, ◌≢◌, ◌∙◌, sym, ap}
use mirror_backend.Session.{
  Session, get_token_hash, get_user_id, Table, Cache, cache_key, user_key, is_user,
  passes_expire_filter, set_cache, forget, refresh_cache, get_by_token_hash, delete_by_user_id,
}
use mirror_backend.Session.Logout.{IsHash, cache_key_injective}

module _ {E : Type 0} (table : Table E) (cache : Cache) where
  open table use {Db, find_all, delete}
  open cache use {Store, get, set, flush, get-set, get-set_other, get-del_other}

  -- the cache after two sessions, and after a logout
  abbrev both_cached : Session → Session → Store → Store
  both_cached older newer c = set_cache table cache newer (set_cache table cache older (flush c))

  logged_out :
      (user_id : ℕ) (slot : Option Session) (db db' : Db) (c : Store)
      → delete (is_user user_id) db ≡ ok db'
      → get (user_key user_id) c ≡ slot
      → delete_by_user_id table cache user_id db c ≡ ok (db', forget table cache user_id slot c)
  unfolding delete_by_user_id
  logged_out user_id slot db db' c gone cached = rw (gone, delete_by_user_id, ← cached)

  module _ (user_id : ℕ) (older newer : Session) (same_user : get_user_id newer ≡ user_id)
      (older_user : get_user_id older ≡ user_id)
      (apart : get_token_hash older ≢ get_token_hash newer)
      (is_hash : IsHash (get_token_hash older)) where
    key_apart : cache_key (get_token_hash older) ≢ cache_key (get_token_hash newer)
    key_apart q = apart (cache_key_injective _ _ q)

    no_user : (n : ℕ) → cache_key (get_token_hash older) ≢ user_key n
    no_user n q = is_hash n (cache_key_injective _ _ q)

    older-cached :
        (c : Store)
        → get (cache_key (get_token_hash older)) (both_cached older newer c) ≡ some older
    older-cached c =
        get-set_other _ _ newer _ (no_user (get_user_id newer))
        ∙ get-set_other _ _ newer _ key_apart
        ∙ get-set_other _ _ older _ (no_user (get_user_id older))
        ∙ get-set _ older (flush c)

    user-cached : (c : Store) → get (user_key user_id) (both_cached older newer c) ≡ some newer
    user-cached c =
        ap (λ u. get (user_key u) (both_cached older newer c)) (sym same_user)
        ∙ get-set (user_key (get_user_id newer)) newer _

    older-kept :
        (c : Store)
        → get
            (cache_key (get_token_hash older))
            (forget table cache user_id (some newer) (both_cached older newer c))
          ≡ some older
    older-kept c =
        get-del_other _ _ _ key_apart ∙ get-del_other _ _ _ (no_user user_id) ∙ older-cached c

  -- Where the cache is refreshed while the table holds just two sessions of a user with different
  -- hashes, and the user then logs out, the hash of the first session still gives that session, at
  -- every later time, though its row is gone.
  pub logout-keeps_older :
      (user_id now later : ℕ) (older newer : Session) (db db' : Db) (c : Store)
      → find_all (passes_expire_filter now) db ≡ ok (older ∷ newer ∷ [])
      → older.user_id ≡ some user_id
      → newer.user_id ≡ some user_id
      → get_token_hash older ≢ get_token_hash newer
      → IsHash (get_token_hash older)
      → delete (is_user user_id) db ≡ ok db'
      → (c₁ : Store) × (c₂ : Store) × (refresh_cache table cache now db c ≡ ok c₁)
        × (delete_by_user_id table cache user_id db c₁ ≡ ok (db', c₂))
        × (get_by_token_hash table cache later (get_token_hash older) db' c₂ ≡ ok older)
  unfolding refresh_cache delete_by_user_id get_by_token_hash
  logout-keeps_older user_id now later older newer db db' c rows u u' apart is_hash gone =
      let same = ap (get_or 0) u' in
      let cached = user-cached user_id older newer same (ap (get_or 0) u) apart is_hash c in
      let kept = older-kept user_id older newer same (ap (get_or 0) u) apart is_hash c in
      (
        both_cached older newer c,
        forget table cache user_id (some newer) (both_cached older newer c),
        rw (rows, refresh_cache),
        logged_out user_id _ db db' _ gone cached,
        rw kept,
      )
