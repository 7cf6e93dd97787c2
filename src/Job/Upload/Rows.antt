-- ===== src/Job/Upload/Rows.antt =====
-- The batches of a file whose rows are good.
use mathlib.Core.List.{flatten}
use mirror_backend.Common.{
  ℕ, ◌+◌, ◌<◌, Bool, true, false, ◌||◌, String, Option, some, List, [], ◌∷◌, ◌++◌, ◌==◌, leb,
  if◌then◌else◌, length, length-append, All, All-append, Each, each_nil, each_cons, append_assoc,
  append-nil, ok, ◌≡◌, refl, sym, ap, ◌∙◌, arith, Bool-cases, inl, inr,
}
use mirror_backend.Entity.Tag.{Tag, TagValue, format_tag_value}
use mirror_backend.Job.Campaign.Batches.Cover.{IsBatch}
use mirror_backend.Job.Upload.{
  UdTagVal, split_into, ud_tag_val, is_full, split_from, split_rows, batch_size,
}
use mirror_backend.Value.{Floats}

flatten-snoc :
    {A : Type 0} (bs : List (List A)) (b : List A) → flatten (bs ++ b ∷ []) ≡ flatten bs ++ b
unfolding flatten
flatten-snoc [] b = append-nil b
flatten-snoc (c ∷ bs) b = ap (λ l. c ++ l) (flatten-snoc bs b) ∙ sym (append_assoc c (flatten bs) b)

-- Flushing the batch keeps the values in order.
flush_batches :
    {A : Type 0} (flush : Bool) (batches : List (List A)) (filled vs : List A)
    → flatten (if flush then batches ++ filled ∷ [] else batches)
        ++ ((if flush then [] else filled) ++ vs)
      ≡ flatten batches ++ (filled ++ vs)
flush_batches true batches filled vs =
    ap (λ l. l ++ vs) (flatten-snoc batches filled) ∙ append_assoc (flatten batches) filled vs
flush_batches false batches filled vs = refl

flush_sized :
    {A : Type 0} (flush : Bool) (batches : List (List A)) (filled : List A)
    → All (IsBatch batch_size) batches
    → IsBatch batch_size filled
    → All (IsBatch batch_size) (if flush then batches ++ filled ∷ [] else batches)
flush_sized true batches filled h k =
    All-append (IsBatch batch_size) batches (filled ∷ []) h (k, tt)
flush_sized false batches filled h k = h

flush_few :
    {A : Type 0} (i n : ℕ) (filled : List A)
    → length (if leb batch_size (length filled) || (i + 1 == n) then [] else filled) < batch_size
flush_few i n filled = elim (Bool-cases (leb batch_size (length filled) || (i + 1 == n))) [
  | inl flush ↦ rw flush (omega arith)
  | inr keep ↦ rw keep (ground arith)
]

flush_last :
    {A : Type 0} (i n : ℕ) (filled : List A)
    → i + 1 ≡ n
    → (if leb batch_size (length filled) || (i + 1 == n) then [] else filled) ≡ []
flush_last i n filled h = ground arith

module _ (floats : Floats) (tag : Tag) (resource_id : Option ℕ) where
  open floats use {Float}

  -- a row of two cells, of which the tag takes the second, and what is written for it
  pub data IsRow : List String → UdTagVal Float → Type 0 where
    is_row :
        (id value : String) (v : TagValue Float)
        → format_tag_value floats (some tag) value ≡ ok v
        → IsRow (id ∷ value ∷ []) (ud_tag_val floats resource_id id v)

  -- one turn of the loop, at a good row
  split_from-good :
      (n i : ℕ) (id value : String) (v : TagValue Float) (rows : List (List String))
      (batch : List (UdTagVal Float)) (batches : List (List (UdTagVal Float)))
      → format_tag_value floats (some tag) value ≡ ok v
      → (let filled = batch ++ ud_tag_val floats resource_id id v ∷ [] in
          let flush = is_full floats tag resource_id n i filled in
          split_from floats tag resource_id n i ((id ∷ value ∷ []) ∷ rows) batch batches
          ≡ split_from floats tag resource_id n
              (i + 1)
              rows
              (if flush then [] else filled)
              (if flush then batches ++ filled ∷ [] else batches))
  unfolding split_from
  split_from-good n i id value v rows batch batches h = rw (h, split_from) refl

  split_from-cover :
      (n i : ℕ) (rows : List (List String)) (vs batch : List (UdTagVal Float))
      (batches : List (List (UdTagVal Float)))
      → Each IsRow rows vs
      → i + length rows ≡ n
      → length batch < batch_size
      → (length rows ≡ 0 → batch ≡ [])
      → All (IsBatch batch_size) batches
      → (bs : List (List (UdTagVal Float))) × (split_from floats tag resource_id n i rows batch
            batches
          ≡ split_into bs)
        × (flatten bs ≡ flatten batches ++ (batch ++ vs))
        × All (IsBatch batch_size) bs
  unfolding split_from
  split_from-cover n i [] [] batch batches each_nil at few last sized = (
    batches,
    refl,
    sym (ap (λ l. flatten batches ++ (l ++ [])) (last refl) ∙ append-nil (flatten batches)),
    sized,
  )
  split_from-cover n i (_ ∷ rows) (_ ∷ vs) batch batches (each_cons (is_row id value v h) more) at
        few last sized =
      let filled = batch ++ ud_tag_val floats resource_id id v ∷ [] in
      let flush = is_full floats tag resource_id n i filled in
      let size : length filled ≡ length batch + 1 =
        length-append batch (ud_tag_val floats resource_id id v ∷ []) in
      let whole : IsBatch batch_size filled = omega (arith, size, few) in
      let (bs, split, flat, all_sized) =
        split_from-cover n (i + 1) rows vs (if flush then [] else filled)
          (if flush then batches ++ filled ∷ [] else batches) more (omega (arith, at))
          (flush_few i n filled) (λ e. flush_last i n filled (omega (arith, at, e)))
          (flush_sized flush batches filled sized whole) in
      (
        bs,
        split_from-good n i id value v rows batch batches h ∙ split,
        flat
            ∙ flush_batches flush batches filled vs
            ∙ ap (λ l. flatten batches ++ l) (append_assoc batch _ vs),
        all_sized,
      )
  split_from-cover n i [] (_ ∷ vs) batch batches each at few last sized = elim each [ ]
  split_from-cover n i (_ ∷ rows) [] batch batches each at few last sized = elim each [ ]

-- Where each row of a file has two cells, of which the tag takes the second, the rows become batches
-- that hold in order one value for each row, at least one and at most 3000 in a batch.
pub split_rows-cover :
    (floats : Floats) (tag : Tag) (resource_id : Option ℕ) (rows : List (List String))
    (vs : List (UdTagVal (Floats.Float floats)))
    → Each (IsRow floats tag resource_id) rows vs
    → (bs : List (List (UdTagVal (Floats.Float floats)))) × (split_rows floats tag resource_id rows
        ≡ split_into bs)
      × (flatten bs ≡ vs)
      × All (IsBatch batch_size) bs
unfolding split_rows flatten
split_rows-cover floats tag resource_id rows vs each =
    split_from-cover floats tag resource_id (length rows) 0 rows vs [] [] each (omega arith)
      (omega arith) (λ _. refl) tt
