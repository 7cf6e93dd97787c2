-- ===== src/Job/Campaign/Buckets/Cover.antt =====
-- Every recipient is in exactly one bucket.
use mathlib.Core.List.{flatten}
use mirror_backend.Common.{
  ℕ, ◌+◌, ◌*◌, ◌≤◌, some, List, [], ◌∷◌, ◌++◌, append_assoc, append-nil, length, drop, ◌≡◌, ◌∙◌,
  sym, ap, arith, eq_of_some, >>=-eq-some, leb, Bool-cases, inl, inr, leb→le,
}
use mirror_backend.Slices.{slice_range, slice_range_bounds, take-drop-append, drop-all}
use mirror_backend.Job.Campaign.Buckets.{bucket_count, min, email_buckets}

abbrev pub sum : List ℕ → ℕ
sum [] = 0
sum (r ∷ rs) = r + sum rs

-- the position behind the last bucket
abbrev pub end_pos : ℕ → ℕ → List ℕ → ℕ
end_pos size pos [] = pos
end_pos size pos (r ∷ rs) = end_pos size (pos + bucket_count size r) rs

bucket_count_enough : (size r : ℕ) → size * r ≤ 100 * bucket_count size r
unfolding bucket_count
bucket_count_enough size r = omega arith

end_pos_enough :
    (size pos : ℕ) (rs : List ℕ) → 100 * pos + size * sum rs ≤ 100 * end_pos size pos rs
end_pos_enough size pos [] = omega arith
end_pos_enough size pos (r ∷ rs) =
    omega (arith, bucket_count_enough size r, end_pos_enough size (pos + bucket_count size r) rs)

module _ {A : Type 0} where
  drop-min : (uds : List A) (n : ℕ) → drop (min (length uds) n) uds ≡ drop n uds
  drop-min uds n = elim (Bool-cases (leb (length uds) n)) [
    | inl short ↦ rw short (
        drop-all (length uds) uds (omega arith)
        ∙ sym (drop-all n uds (leb→le (length uds) n short)))
    | inr long ↦ rw long
  ]

  bucket_step :
      (uds bucket : List A) (pos n : ℕ)
      → slice_range uds pos (min (length uds) n) ≡ some bucket
      → bucket ++ drop n uds ≡ drop pos uds
  bucket_step uds bucket pos n h =
      let (lo, hi, e) = slice_range_bounds uds pos (min (length uds) n) h in
      rw (e, ← drop-min uds n) (take-drop-append uds pos (min (length uds) n) lo)

  flatten-buckets :
      (uds : List A) (pos : ℕ) (rs : List ℕ) (buckets : List (List A))
      → email_buckets uds pos rs ≡ some buckets
      → flatten buckets ++ drop (end_pos (length uds) pos rs) uds ≡ drop pos uds
  unfolding email_buckets flatten
  flatten-buckets uds pos [] buckets h = let e : [] ≡ buckets = eq_of_some h in rw (← e)
  flatten-buckets uds pos (r ∷ rs) buckets h =
      let (bucket, sliced, later) = >>=-eq-some (slice_range uds pos _) _ h in
      let (rest, built, same) = >>=-eq-some (email_buckets uds _ rs) _ later in
      let e : bucket ∷ rest ≡ buckets = eq_of_some same in
      let ih = flatten-buckets uds (pos + bucket_count (length uds) r) rs rest built in
      rw (← e) (
        append_assoc bucket (flatten rest) _
        ∙ ap (λ l. bucket ++ l) ih
        ∙ bucket_step uds bucket pos _ sliced)

-- Where the ratios of a campaign's emails add up to 100 and splitting does not panic, the buckets
-- in order are the recipients in order: nobody is left out and nobody is in two buckets.
pub email_buckets-cover :
    {A : Type 0} (uds : List A) (ratios : List ℕ) (buckets : List (List A))
    → sum ratios ≡ 100
    → email_buckets uds 0 ratios ≡ some buckets
    → flatten buckets ≡ uds
email_buckets-cover uds ratios buckets h b =
    let far = end_pos_enough (length uds) 0 ratios in
    let e : length uds * sum ratios ≡ length uds * 100 = ap (λ k. length uds * k) h in
    let all = drop-all (end_pos (length uds) 0 ratios) uds (omega arith) in
    sym (append-nil _)
    ∙ ap (λ l. flatten buckets ++ l) (sym all)
    ∙ flatten-buckets uds 0 ratios buckets b
