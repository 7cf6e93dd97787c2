-- ===== src/Repo/Page.antt =====
-- `GetMany` of repo/orm.go. The query that gorm runs is a parameter: `count` counts the rows that the
-- filter finds, `find` answers those rows from an offset on, in descending order of their IDs, and at
-- most as many as its limit.
pub mod Cover
use mirror_backend.Common.{
  ℕ, ◌+◌, ◌-◌, ◌*◌, ◌%◌, ◌^◌, Bool, true, false, ◌&&◌, Option, none, some, List, ◌==◌, ltb,
  if◌then◌else◌, length, take, get_or, Result, ok, err,
}

-- repo.Pagination
pub record Pagination : Type 0 where
  pub limit : Option ℕ
  pub page : Option ℕ
  pub total : Option ℕ
  pub has_next : Option Bool

abbrev pub no_pagination : Pagination
no_pagination = record { limit = none; page = none; total = none; has_next = none }

abbrev pub get_limit : Pagination → ℕ
get_limit p = get_or 0 p.limit

abbrev pub get_page : Pagination → ℕ
get_page p = get_or 0 p.page

-- the query with its filter
pub record Query (E A : Type 0) : Type 0 where
  pub count : Result E ℕ
  pub find : ℕ → Option ℕ → Result E (List A)

-- uint32
abbrev pub wrap : ℕ → ℕ
wrap n = n % 2 ^ 32

abbrev pub or_first : ℕ → ℕ
or_first page = if page == 0 then 1 else page

-- page is not 0
abbrev pub offset : ℕ → ℕ → ℕ
offset page limit = wrap (wrap (page - 1) * limit)

-- the answer, from what `Find` gave
unfoldable pub cut : {A : Type 0} → Pagination → ℕ → List A → List A × Pagination
cut p count res =
    let limit = get_limit p in
    let has_next = ltb 0 limit && ltb limit (length res) in
    (
      if has_next then take limit res else res,
      record {
        limit = p.limit;
        page = some (or_first (get_page p));
        total = some (wrap count);
        has_next = some has_next;
      },
    )

module _ {E A : Type 0} (query : Query E A) where
  abbrev with_rows : Pagination → ℕ → Result E (List A) → Result E (List A × Pagination)
  with_rows p count (err e) = err e
  with_rows p count (ok res) = ok (cut p count res)

  abbrev with_count : Pagination → Result E ℕ → Result E (List A × Pagination)
  with_count p (err e) = err e
  with_count p (ok count) =
      let limit = get_limit p in
      with_rows p count (
        query.find (offset (or_first (get_page p)) limit)
          (if ltb 0 limit then some (wrap (limit + 1)) else none))

  unfoldable pub get_many : Option Pagination → Result E (List A × Pagination)
  unfolding cut
  get_many p = with_count (get_or no_pagination p) query.count
