-- ===== src/Job/Campaign/Batches.antt =====
-- How `Run` splits a bucket into the batches of one send: the loop
-- `for start := 0; start < len(bucket); start += batchSize`. The fuel bounds its rounds; `none` is
-- the panic of a slice expression, or no fuel left.
pub mod Cover
use mirror_backend.Common.{
  ℕ, zero, suc, ◌+◌, Option, none, some, List, [], ◌∷◌, ltb, if◌then◌else◌, length, ◌>>=◌,
}
use mirror_backend.Slices.{slice_range}

-- dep.MaxRecipientsPerSend
abbrev pub max_recipients_per_send : ℕ
max_recipients_per_send = 10

module _ {A : Type 0} where
  unfoldable pub batches_from : ℕ → ℕ → ℕ → List A → Option (List (List A))
  batches_from zero batch_size start bucket = none
  batches_from (suc fuel) batch_size start bucket =
      let next = batches_from fuel batch_size (start + batch_size) bucket in
      let end =
        (if ltb (length bucket) (start + batch_size) then length bucket else start + batch_size) in
      let round = (do batch ← slice_range bucket start end; rest ← next; some (batch ∷ rest)) in
      if ltb start (length bucket) then round else some []

  unfoldable pub batches : ℕ → List A → Option (List (List A))
  unfolding batches_from
  batches batch_size bucket = batches_from (suc (length bucket)) batch_size 0 bucket
