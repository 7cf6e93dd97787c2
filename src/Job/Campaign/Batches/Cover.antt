-- ===== src/Job/Campaign/Batches/Cover.antt =====
-- The batches of a bucket: the loop ends, and they hold each recipient once, in order.
use mathlib.Core.List.{flatten}
use mirror_backend.Common.{
  ℕ, zero, suc, ◌+◌, ◌-◌, ◌≤◌, ◌<◌, some, List, [], ◌∷◌, ◌++◌, ltb, if◌then◌else◌, length, take,
  drop, ◌≡◌, ◌∙◌, sym, ap, arith, Bool-cases, inl, inr, ltb→lt, All, ◌⊎◌, length-take, length-drop,
}
use mirror_backend.Slices.{slice_range_in_range, take-drop-append, drop-all}
use mirror_backend.Job.Campaign.Batches.{batches_from, batches}

-- a batch that one send takes
abbrev pub IsBatch : {A : Type 0} → ℕ → List A → Type 0
IsBatch size b = (1 ≤ length b) × (length b ≤ size)

module _ {A : Type 0} (size : ℕ) (bucket : List A) (positive : 0 < size) where
  abbrev stop : ℕ → ℕ
  stop start = if ltb (length bucket) (start + size) then length bucket else start + size

  stop_bounds :
      (start : ℕ)
      → start < length bucket
      → (start < stop start)
        × (stop start ≤ length bucket)
        × (stop start ≤ start + size)
        × ((stop start ≡ start + size)
            ⊎ ((stop start ≡ length bucket) × (length bucket ≤ start + size)))
  stop_bounds start h = ground arith

  IsBatch-round :
      (start : ℕ)
      → start < length bucket
      → IsBatch size (take (stop start - start) (drop start bucket))
  IsBatch-round start h =
      let (a, b, c, _) = stop_bounds start h in
      let d = length-drop start bucket (omega arith) in
      let e = length-take (stop start - start) (drop start bucket) (omega arith) in omega arith

  -- the batch of a round, and what the later rounds take
  round_cover :
      (start : ℕ)
      → start < length bucket
      → take (stop start - start) (drop start bucket) ++ drop (start + size) bucket
        ≡ drop start bucket
  round_cover start h =
      let (a, b, c, d) = stop_bounds start h in
      let same : drop (start + size) bucket ≡ drop (stop start) bucket = elim d [
        | inl e ↦ rw e
        | inr (last, far) ↦
            drop-all (start + size) bucket far ∙ sym (drop-all (stop start) bucket (omega arith))
      ] in
      ap (λ l. take (stop start - start) (drop start bucket) ++ l) same
      ∙ take-drop-append bucket start (stop start) (omega arith)

  batches_from_cover :
      (fuel start : ℕ)
      → length bucket < fuel + start
      → 0 < fuel
      → (bs : List (List A)) × (batches_from fuel size start bucket ≡ some bs)
        × (flatten bs ≡ drop start bucket)
        × All (IsBatch size) bs
  unfolding batches_from flatten
  batches_from_cover zero start h k = absurd (omega arith)
  batches_from_cover (suc fuel) start h k = elim (Bool-cases (ltb start (length bucket))) [
    | inl more ↦
        let lt = ltb→lt _ _ more in
        let (a, b, _, _) = stop_bounds start lt in
        let (bs, built, flat, sized) =
          batches_from_cover fuel (start + size) (omega arith) (omega arith) in
        let sliced = slice_range_in_range bucket start (stop start) (omega arith) (omega arith) in
        (
          take (stop start - start) (drop start bucket) ∷ bs,
          rw (more, sliced, built),
          ap (λ l. take (stop start - start) (drop start bucket) ++ l) flat ∙ round_cover start lt,
          (IsBatch-round start lt, sized),
        )
    | inr over ↦ ([], rw over, sym (drop-all start bucket (ground arith)), tt)
  ]

-- Splitting a bucket into batches of a positive size returns; the batches in order are the bucket
-- in order, and each holds at least one recipient and at most the size.
pub batches_cover :
    {A : Type 0} (size : ℕ) (bucket : List A)
    → 0 < size
    → (bs : List (List A)) × (batches size bucket ≡ some bs)
      × (flatten bs ≡ bucket)
      × All (IsBatch size) bs
unfolding batches
batches_cover size bucket positive =
    batches_from_cover size bucket positive (suc (length bucket)) 0 (omega arith) (omega arith)
