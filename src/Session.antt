-- ===== src/Session.antt =====
-- entity/session.go, repo/session.go and repo/cache.go: sessions, the table that holds them and the
-- cache in front of it. gorm's queries on the table and go-cache are parameters with the laws that
-- the code relies on; that an entry of the cache runs out is left out. Times are in seconds.
pub mod Logout
pub mod Stale
pub mod Expiry
pub mod Middleware
use Prim.Native.String.{◌++◌}
use mirror_backend.Common.{
  ℕ, ◌+◌, ◌*◌, String, Bool, true, false, ◌&&◌, Option, none, some, List, [], ◌∷◌, ◌==◌, leb,
  str_eq, get_or, Result, ok, err, ◌≡◌, ◌≢◌,
}
use mirror_backend.Text.{show}

pub record Session : Type 0 where
  pub id : Option ℕ
  pub user_id : Option ℕ
  pub token : Option String
  pub token_hash : Option String
  pub expire_time : Option ℕ
  pub create_time : Option ℕ

abbrev pub get_id : Session → ℕ
get_id e = get_or 0 e.id

abbrev pub get_token_hash : Session → String
get_token_hash e = get_or "" e.token_hash

abbrev pub get_user_id : Session → ℕ
get_user_id e = get_or 0 e.user_id

-- `config.ThreeMonths`
abbrev pub three_months : ℕ
three_months = 90 * 24 * 3600

-- what the code calls to make tokens
pub record Tokens : Type 0 where
  pub base64_encode : String → String
  pub base64_decode : String → Option String
  pub sha256 : String → String

-- NewSession at `now`, with the random string that it generates
unfoldable pub new_session : Tokens → ℕ → String → ℕ → Session
new_session tokens now random user_id = record {
  id = none;
  user_id = some user_id;
  token = some (tokens.base64_encode random);
  token_hash = some (tokens.sha256 random);
  expire_time = some (now + three_months);
  create_time = some now;
}

-- The table, by gorm's queries with a filter. `find` answers `none` for `ErrRecordNotFound`.
pub record Table (E : Type 0) : Type 1 where
  pub Db : Type 0
  pub find : (Session → Bool) → Db → Result E (Option Session)
  pub find_all : (Session → Bool) → Db → Result E (List Session)
  pub insert : Session → Db → Result E (ℕ × Db)
  pub delete : (Session → Bool) → Db → Result E Db
  -- a row that is found passes the filter, and is none of those just deleted
  pub find-passes :
      (p : Session → Bool) (db : Db) (r : Session) → find p db ≡ ok (some r) → p r ≡ true
  pub find-delete :
      (p q : Session → Bool) (db db' : Db) (r : Session)
      → delete p db ≡ ok db'
      → find q db' ≡ ok (some r)
      → p r ≢ true

pub record Cache : Type 1 where
  pub Store : Type 0
  pub get : String → Store → Option Session
  pub set : String → Session → Store → Store
  pub del : String → Store → Store
  pub flush : Store → Store
  pub get-flush : (k : String) (c : Store) → get k (flush c) ≡ none
  pub get-set : (k : String) (v : Session) (c : Store) → get k (set k v c) ≡ some v
  pub get-set_other : (k j : String) (v : Session) (c : Store) → k ≢ j → get k (set j v c) ≡ get k c
  pub get-del : (k : String) (c : Store) → get k (del k c) ≡ none
  pub get-del_other : (k j : String) (c : Store) → k ≢ j → get k (del j c) ≡ get k c

pub data SessionError (E : Type 0) : Type 0 where
  session_not_found : SessionError E
  table_error : E → SessionError E

-- getKey: the prefix, the tenant 0 and the unique key
abbrev pub cache_key : String → String
cache_key uniq_key = "session:0:" ++ uniq_key

abbrev pub user_key : ℕ → String
user_key id = cache_key (show id)

-- ToSession(ToSessionModel(session)): the table has no token
unfoldable pub stored : Session → Session
stored session = record session { token = none }

-- The filters: a NULL of a row passes none.
abbrev pub is_user : ℕ → Session → Bool
is_user id row = elim (row.user_id) [ none ↦ false | some user_id ↦ user_id == id ]

abbrev pub has_hash : String → Session → Bool
has_hash hash row = elim (row.token_hash) [ none ↦ false | some h ↦ str_eq h hash ]

-- the condition that `maybeAddExpireFilter` adds
unfoldable pub passes_expire_filter : ℕ → Session → Bool
passes_expire_filter now row = elim (row.expire_time) [
  | none ↦ false
  | some time ↦ leb time (now + three_months)
]

module _ {E : Type 0} (table : Table E) (cache : Cache) where
  open table use {Db, find, find_all, insert, delete}
  open cache use {Store, get, set, del, flush}

  abbrev pub set_cache : Session → Store → Store
  set_cache session c =
      set (user_key (get_user_id session)) session
        (set (cache_key (get_token_hash session)) session c)

  abbrev set_all : List Session → Store → Store
  set_all [] c = c
  set_all (session ∷ sessions) c = set_all sessions (set_cache session c)

  -- the cache is as it was where the table cannot be read
  unfoldable pub refresh_cache : ℕ → Db → Store → Result E Store
  refresh_cache now db c = elim (find_all (passes_expire_filter now) db) [
    | err e ↦ err e
    | ok sessions ↦ ok (set_all sessions (flush c))
  ]

  abbrev find_result : Result E (Option Session) → Result (SessionError E) Session
  find_result (err e) = err (table_error e)
  find_result (ok none) = err session_not_found
  find_result (ok (some row)) = ok row

  abbrev from_cache :
      Option Session → Result (SessionError E) Session → Result (SessionError E) Session
  from_cache (some session) found = ok session
  from_cache none found = found

  unfoldable pub get_by_user_id : ℕ → ℕ → Db → Store → Result (SessionError E) Session
  get_by_user_id now user_id db c =
      from_cache (get (user_key user_id) c)
        (find_result (find (λ row. is_user user_id row && passes_expire_filter now row) db))

  unfoldable pub get_by_token_hash : ℕ → String → Db → Store → Result (SessionError E) Session
  get_by_token_hash now hash db c =
      from_cache (get (cache_key hash) c)
        (find_result (find (λ row. has_hash hash row && passes_expire_filter now row) db))

  abbrev forget : ℕ → Option Session → Store → Store
  forget user_id none c = c
  forget user_id (some session) c =
      del (cache_key (get_token_hash session)) (del (user_key user_id) c)

  -- log out
  unfoldable pub delete_by_user_id : ℕ → Db → Store → Result E (Db × Store)
  delete_by_user_id user_id db c = elim (delete (is_user user_id) db) [
    | err e ↦ err e
    | ok db' ↦ ok (db', forget user_id (get (user_key user_id) c) c)
  ]

  -- the table gives the row its ID
  unfoldable pub create : Session → Db → Result E (ℕ × Db)
  unfolding stored
  create session db = insert (stored session) db
