-- ===== src/Job/Campaign/Buckets/Panics.antt =====
-- Where splitting the recipients panics.
use mirror_backend.Common.{
  ℕ, ◌+◌, ◌≤◌, ◌<◌, Option, none, some, List, [], ◌∷◌, length, ◌≡◌, ◌↔◌, refl, arith, >>=-eq-some,
}
use mirror_backend.Slices.{slice_range, slice_range_bounds, slice_range_in_range}
use mirror_backend.Job.Campaign.Buckets.{bucket_count, min, email_buckets}

-- no bucket starts behind the last recipient
abbrev pub StartsInRange : ℕ → ℕ → List ℕ → Type 0
StartsInRange size pos [] = Unit
StartsInRange size pos (r ∷ rs) = (pos ≤ size) × StartsInRange size (pos + bucket_count size r) rs

module _ {A : Type 0} where
  pub first_slice :
      (uds : List A) (pos n : ℕ)
      → pos ≤ length uds
      → (b : List A) × (slice_range uds pos (min (length uds) (pos + n)) ≡ some b)
  first_slice uds pos n h =
      (_, slice_range_in_range uds pos (min (length uds) (pos + n)) (ground arith) (ground arith))

  buckets_of_StartsInRange :
      (uds : List A) (pos : ℕ) (rs : List ℕ)
      → StartsInRange (length uds) pos rs
      → (bs : List (List A)) × (email_buckets uds pos rs ≡ some bs)
  unfolding email_buckets
  buckets_of_StartsInRange uds pos [] h = ([], refl)
  buckets_of_StartsInRange uds pos (r ∷ rs) (h, k) =
      let (b, sliced) = first_slice uds pos (bucket_count (length uds) r) h in
      let (bs, built) = buckets_of_StartsInRange uds (pos + bucket_count (length uds) r) rs k in
      (b ∷ bs, rw (sliced, built))

  StartsInRange-of_buckets :
      (uds : List A) (pos : ℕ) (rs : List ℕ) (bs : List (List A))
      → email_buckets uds pos rs ≡ some bs
      → StartsInRange (length uds) pos rs
  unfolding email_buckets
  StartsInRange-of_buckets uds pos [] bs h = tt
  StartsInRange-of_buckets uds pos (r ∷ rs) bs h =
      let (b, sliced, later) = >>=-eq-some (slice_range uds pos _) _ h in
      let (rest, built, same) = >>=-eq-some (email_buckets uds _ rs) _ later in
      let (lo, hi, _) = slice_range_bounds uds pos _ sliced in
      (omega arith, StartsInRange-of_buckets uds (pos + bucket_count (length uds) r) rs rest built)

-- Splitting returns exactly when no email's bucket starts behind the last recipient.
pub email_buckets-returns_iff :
    {A : Type 0} (uds : List A) (ratios : List ℕ)
    → ((bs : List (List A)) × (email_buckets uds 0 ratios ≡ some bs))
      ↔ StartsInRange (length uds) 0 ratios
email_buckets-returns_iff uds ratios =
    (λ h. StartsInRange-of_buckets uds 0 ratios h.0 h.1, buckets_of_StartsInRange uds 0 ratios)

bucket_count-le : (size r : ℕ) → r ≤ 100 → bucket_count size r ≤ size
unfolding bucket_count
bucket_count-le size r h = grind arith

-- With one or two emails whose ratios add up to 100, splitting never panics.
pub two_emails-return :
    {A : Type 0} (uds : List A) (r s : ℕ)
    → r + s ≡ 100
    → (bs : List (List A)) × (email_buckets uds 0 (r ∷ s ∷ []) ≡ some bs)
two_emails-return uds r s h =
    buckets_of_StartsInRange uds 0 (r ∷ s ∷ [])
      (omega arith, (omega (arith, bucket_count-le (length uds) r (omega arith)), tt))

bucket_count-one : (r : ℕ) → 0 < r → 1 ≤ bucket_count 1 r
unfolding bucket_count
bucket_count-one r h = omega arith

none_of_not : {A : Type 0} (o : Option A) → ((a : A) → o ≡ some a → ⊥) → o ≡ none
none_of_not none h = refl
none_of_not (some a) h = absurd (h a refl)

-- With one recipient and three emails or more, the first two of which have a positive ratio,
-- splitting panics, whatever the other ratios are.
pub three_emails-panic :
    {A : Type 0} (ud : A) (r s t : ℕ) (ratios : List ℕ)
    → 0 < r
    → 0 < s
    → email_buckets (ud ∷ []) 0 (r ∷ s ∷ t ∷ ratios) ≡ none
three_emails-panic ud r s t ratios hr hs =
    none_of_not (email_buckets (ud ∷ []) 0 (r ∷ s ∷ t ∷ ratios)) λ bs h.
      let starts = StartsInRange-of_buckets (ud ∷ []) 0 (r ∷ s ∷ t ∷ ratios) bs h in
      omega (arith, starts.1.1.0, bucket_count-one r hr, bucket_count-one s hs)
