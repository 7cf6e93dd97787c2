-- ===== src/Job/Campaign/Buckets.antt =====
-- How `Run` splits the recipients of a campaign among its emails. The code takes the ceiling of a
-- float64 quotient by 100; below 2^52 this is the ceiling of the exact quotient. `none` is the
-- panic of a slice expression out of range.
pub mod Cover
pub mod Panics
use mirror_backend.Common.{
  ℕ, ◌+◌, ◌*◌, ◌/◌, Option, none, some, List, [], ◌∷◌, leb, if◌then◌else◌, length, ◌>>=◌,
}
use mirror_backend.Slices.{slice_range}

-- int(math.Ceil(float64(size) * float64(ratio) / float64(100)))
unfoldable pub bucket_count : ℕ → ℕ → ℕ
bucket_count size ratio = (size * ratio + 99) / 100

-- math.Min
abbrev pub min : ℕ → ℕ → ℕ
min a b = if leb a b then a else b

module _ {A : Type 0} where
  -- the loop over the ratios of the emails, from position `pos`
  unfoldable pub email_buckets : List A → ℕ → List ℕ → Option (List (List A))
  email_buckets uds pos [] = some []
  email_buckets uds pos (ratio ∷ ratios) = do
    let count = bucket_count (length uds) ratio
    bucket ← slice_range uds pos (min (length uds) (pos + count))
    rest ← email_buckets uds (pos + count) ratios
    some (bucket ∷ rest)
