-- ===== src/Repo/Page/Cover.antt =====
-- The pages of a query together.
use mathlib.Core.Path.{ap₂}
use mirror_backend.Common.{
  ℕ, zero, suc, ◌+◌, ◌-◌, ◌*◌, ◌^◌, ◌≤◌, ◌<◌, true, false, ◌&&◌, none, some, List, [], ◌∷◌, ◌++◌,
  ltb, if◌then◌else◌, length, take, drop, Result, ok, err, ◌≡◌, ◌∙◌, refl, sym, ap, arith,
  Bool-cases, inl, inr, length-take, length-drop,
}
use mirror_backend.Slices.{drop-all}
use mirror_backend.Repo.Page.{
  Pagination, Query, cut, offset, or_first, wrap, with_rows, with_count, get_many,
}

-- the query has these rows
pub record Finds {E A : Type 0} (query : Query E A) (rows : List A) : Type 0 where
  pub counts : query.count ≡ ok (length rows)
  pub from : (o l : ℕ) → query.find o (some l) ≡ ok (take l (drop o rows))

abbrev pub page_of : ℕ → ℕ → Pagination
page_of page limit = record { limit = some limit; page = some page; total = none; has_next = none }

module _ {A : Type 0} where
  take-take : (m n : ℕ) (xs : List A) → m ≤ n → take m (take n xs) ≡ take m xs
  take-take zero n xs h = refl
  take-take (suc m) zero xs h = absurd (omega arith)
  take-take (suc m) (suc n) [] h = refl
  take-take (suc m) (suc n) (x ∷ xs) h = ap (λ l. x ∷ l) (take-take m n xs (omega arith))

  take_all : (n : ℕ) (xs : List A) → length xs ≤ n → take n xs ≡ xs
  take_all zero [] h = refl
  take_all zero (x ∷ xs) h = absurd (omega arith)
  take_all (suc n) [] h = refl
  take_all (suc n) (x ∷ xs) h = ap (λ l. x ∷ l) (take_all n xs (omega arith))

  cut-rows :
      (page count limit : ℕ) (xs : List A)
      → 0 < limit
      → ((cut (page_of page limit) count (take (limit + 1) xs)).0 ≡ take limit xs)
        × ((cut (page_of page limit) count (take (limit + 1) xs)).1.has_next
            ≡ some (ltb limit (length xs)))
  unfolding cut
  cut-rows page count limit xs positive = elim (Bool-cases (ltb limit (length xs))) [
    | inl more ↦
        let enough : limit + 1 ≤ length xs = ground arith in
        let one_more = length-take (limit + 1) xs enough in
        let e : (ltb 0 limit && ltb limit (length (take (limit + 1) xs))) ≡ true = ground arith in
        rw (e, more) (take-take limit (limit + 1) xs (omega arith), refl)
    | inr last ↦
        let few : length xs ≤ limit = ground arith in
        let whole = take_all (limit + 1) xs (omega arith) in
        let e : (ltb 0 limit && ltb limit (length (take (limit + 1) xs))) ≡ false =
          rw whole (ground arith) in
        rw (e, last) (whole ∙ sym (take_all limit xs few), refl)
  ]

length_behind :
    {A : Type 0} (n limit : ℕ) (xs : List A)
    → ltb limit (length (drop n xs)) ≡ ltb (n + limit) (length xs)
length_behind n limit xs = elim (Bool-cases (ltb (length xs) n)) [
  | inl short ↦ let gone = drop-all n xs (ground arith) in rw gone (ground arith)
  | inr within ↦ let e = length-drop n xs (ground arith) in ground arith
]

page_fits : (page limit : ℕ) → 0 < limit → page ≤ page * limit
page_fits zero limit h = omega arith
page_fits (suc page) limit h = grind (arith, page_fits page limit h)

offset_exact :
    (page limit : ℕ)
    → 0 < limit
    → page * limit < 2 ^ 32
    → offset (or_first (page + 1)) limit ≡ page * limit
offset_exact page limit positive fits =
    let small = page_fits page limit positive in
    let e : or_first (page + 1) ≡ page + 1 = ground arith in
    let k : wrap (page + 1 - 1) ≡ page = omega arith in rw (e, k) (omega arith)

limit_exact :
    (limit : ℕ)
    → 0 < limit
    → limit + 1 < 2 ^ 32
    → (if ltb 0 limit then some (wrap (limit + 1)) else none) ≡ some (limit + 1)
limit_exact limit positive small = ground arith

-- A page of a query, where the limit is positive and the position of its first row fits a uint32, is
-- the rows from that position on, as many as the limit at most; and there is a next page exactly if
-- the query has rows behind it.
pub get_many-page :
    {E A : Type 0} (query : Query E A) (rows : List A) (page limit : ℕ)
    → Finds query rows
    → 0 < limit
    → limit + 1 < 2 ^ 32
    → page * limit < 2 ^ 32
    → (p : Pagination) × (get_many query (some (page_of (page + 1) limit))
        ≡ ok (take limit (drop (page * limit) rows), p))
      × (p.has_next ≡ some (ltb (page * limit + limit) (length rows)))
unfolding get_many
get_many-page query rows page limit h positive small fits =
    let p = page_of (page + 1) limit in
    let behind = drop (page * limit) rows in
    let (res, next) = cut-rows (page + 1) (length rows) limit behind positive in
    let found =
      ap₂ query.find (offset_exact page limit positive fits) (limit_exact limit positive small)
      ∙ h.from (page * limit) (limit + 1) in
    let answer = (cut p (length rows) (take (limit + 1) behind)).1 in
    (
      answer,
      ap (with_count query p) h.counts
          ∙ ap (with_rows query p (length rows)) found
          ∙ ap (λ r. ok (r, answer)) res,
      next ∙ ap some (length_behind (page * limit) limit rows),
    )

-- the rows of the first pages, as a client collects them
abbrev rows_of : {E A : Type 0} → Result E (List A × Pagination) → List A
rows_of (ok (res, p)) = res
rows_of (err e) = []

pub first_pages : {E A : Type 0} → Query E A → ℕ → ℕ → List A
first_pages query limit zero = []
first_pages query limit (suc n) =
    first_pages query limit n ++ rows_of (get_many query (some (page_of (n + 1) limit)))

module _ {A : Type 0} where
  take_none : (n : ℕ) → take {A = A} n [] ≡ []
  take_none zero = refl
  take_none (suc n) = refl

  take-add : (m n : ℕ) (xs : List A) → take m xs ++ take n (drop m xs) ≡ take (m + n) xs
  take-add zero n xs = let e : 0 + n ≡ n = omega arith in rw e
  take-add (suc m) n [] = take_none n ∙ sym (take_none (suc m + n))
  take-add (suc m) n (x ∷ xs) =
      let e : suc m + n ≡ suc (m + n) = omega arith in rw e (ap (λ l. x ∷ l) (take-add m n xs))

-- The first pages of a query together are its first rows, in order: no row is left out between two
-- pages and none stands on two pages.
pub first_pages-rows :
    {E A : Type 0} (query : Query E A) (rows : List A) (limit n : ℕ)
    → Finds query rows
    → 0 < limit
    → limit + 1 < 2 ^ 32
    → n * limit < 2 ^ 32
    → first_pages query limit n ≡ take (n * limit) rows
unfolding first_pages
first_pages-rows query rows limit zero h positive small fits =
    let e : 0 * limit ≡ 0 = omega arith in rw e
first_pages-rows query rows limit (suc n) h positive small fits =
    let below : n * limit < 2 ^ 32 = grind arith in
    let e : n * limit + limit ≡ suc n * limit = grind arith in
    let (_, page, _) = get_many-page query rows n limit h positive small below in
    ap₂ ◌++◌ (first_pages-rows query rows limit n h positive small below) (ap rows_of page)
    ∙ take-add (n * limit) limit rows
    ∙ ap (λ k. take k rows) e
