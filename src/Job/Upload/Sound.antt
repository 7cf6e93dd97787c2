-- ===== src/Job/Upload/Sound.antt =====
-- What holds at each turn of the loop of job/run_file_upload_tasks/job.go.
use mathlib.Core.List.{flatten}
use mathlib.Core.Path.{subst}
use mirror_backend.Common.{
  ℕ, zero, suc, ◌+◌, ◌≤◌, Option, none, some, List, [], ◌∷◌, ◌==◌, ltb, length, length-append, take,
  ◌≡◌, refl, ◌∙◌, arith, Bool-cases, inl, inr,
}
use mirror_backend.Entity.Task.Updated.{update-size}
use mirror_backend.Entity.Task.{Task, get_size, update, task_status_unknown}
use mirror_backend.Job.Upload.Loop.{
  LoopState, Event, result, tick, idle, Exit, running, returned, nil_size, finish, on_tick,
  on_event, write_batch, turn, after_progress, starts, turns, IsFed, Reaches,
}

module _ {A : Type 0} (batches : List (List A)) where
  -- the rows of the batches that are written
  abbrev pub rows_written : LoopState → ℕ
  rows_written s = length (flatten (take s.batch_num batches))

  -- The task keeps its size, no more results are counted than rows were written, and no batch is
  -- written twice.
  pub record IsSound (size : Option ℕ) (s : LoopState) : Type 0 where
    pub same_size : get_size s.task ≡ size
    pub counted : s.count ≤ rows_written s
    pub in_range : s.batch_num ≤ length batches

take-suc :
    {A : Type 0} (n : ℕ) (bs : List (List A))
    → length (flatten (take n bs)) ≤ length (flatten (take (suc n) bs))
unfolding flatten
take-suc zero bs = omega arith
take-suc (suc n) [] = omega arith
take-suc (suc n) (b ∷ bs) =
    let fewer : length (flatten (take (suc n) (b ∷ bs))) ≡ length b + length (flatten (take n bs)) =
      length-append b (flatten (take n bs)) in
    let more : length (flatten (take (suc (suc n)) (b ∷ bs)))
        ≡ length b + length (flatten (take (suc n) bs)) =
      length-append b (flatten (take (suc n) bs)) in
    omega (arith, take-suc n bs, fewer, more)

take_more :
    {A : Type 0} (n : ℕ) (bs : List (List A))
    → length (flatten (take n bs)) ≤ length (flatten (take (n + 1) bs))
take_more n bs =
    let same : suc n ≡ n + 1 = omega arith in
    subst (λ k. length (flatten (take n bs)) ≤ length (flatten (take k bs))) same (take-suc n bs)

module _ {E A : Type 0} (batches : List (List A)) (size : Option ℕ) where
  -- the same of how a turn's event ends, where the loop goes on
  abbrev IsSoundExit : Exit E → Type 0
  IsSoundExit (running s) = IsSound batches size s
  IsSoundExit (returned r s) = Unit
  IsSoundExit nil_size = Unit

  finish-IsSound : (now : ℕ) (answer : Option E) (s : LoopState) → IsSoundExit (finish now answer s)
  unfolding finish
  finish-IsSound now none s = tt
  finish-IsSound now (some e) s = tt

  shown-IsSound :
      (now p : ℕ) (first : Option E) (s : LoopState)
      → IsSound batches size s
      → IsSound batches size (
          after_progress first
            (record s { task = (update now task_status_unknown (some p) s.task).0 }))
  shown-IsSound now p none s h = record {
    same_size = update-size now task_status_unknown (some p) s.task ∙ h.same_size;
    counted = h.counted;
    in_range = h.in_range;
  }
  shown-IsSound now p (some e) s h = record {
    same_size = update-size now task_status_unknown (some p) s.task ∙ h.same_size;
    counted = h.counted;
    in_range = h.in_range;
  }

  on_tick-IsSound :
      (now n : ℕ) (first second : Option E) (s : LoopState)
      → IsSound batches size s
      → IsSoundExit (on_tick now first second n s)
  unfolding on_tick
  on_tick-IsSound now n first second s h = elim (Bool-cases (ltb 0 n)) [
    | inr zero_size ↦ rw zero_size (finish-IsSound now second s)
    | inl sized ↦ elim (Bool-cases (s.count == n)) [
      | inl all_in ↦ rw (sized, all_in) (finish-IsSound now second _)
      | inr more ↦ rw (sized, more) (shown-IsSound now _ first s h)
    ]
  ]

  sized_tick-IsSound :
      (now : ℕ) (first second : Option E) (s : LoopState) (o : Option ℕ)
      → IsSound batches size s
      → IsSoundExit (elim o [ none ↦ nil_size | some n ↦ on_tick now first second n s ])
  sized_tick-IsSound now first second s none h = tt
  sized_tick-IsSound now first second s (some n) h = on_tick-IsSound now n first second s h

  on_event-IsSound :
      (e : Event E) (s : LoopState)
      → IsSound batches size s
      → IsFed E batches e s
      → IsSoundExit (on_event e s)
  unfolding on_event
  on_event-IsSound (result none) s h fed = record {
    same_size = h.same_size;
    counted = omega (arith, fed);
    in_range = h.in_range;
  }
  on_event-IsSound (result (some e)) s h fed = tt
  on_event-IsSound (tick now first second) s h fed =
      sized_tick-IsSound now first second s (get_size s.task) h
  on_event-IsSound idle s h fed = h

  write_batch-IsSound :
      (answer : Option E) (x : Exit E)
      → IsSoundExit x
      → IsSoundExit (write_batch (length batches) answer x)
  unfolding write_batch
  write_batch-IsSound answer (returned r s) h = tt
  write_batch-IsSound answer nil_size h = tt
  write_batch-IsSound none (running s) h = elim (Bool-cases (ltb s.batch_num (length batches))) [
    | inl left ↦ rw left (record {
      same_size = h.same_size;
      counted = omega (arith, h.counted, take_more s.batch_num batches);
      in_range = ground (arith, left);
    })
    | inr over ↦ rw over h
  ]
  write_batch-IsSound (some e) (running s) h =
      elim (Bool-cases (ltb s.batch_num (length batches))) [
        | inl left ↦ rw left tt
        | inr over ↦ rw over h
      ]

-- Wherever the loop comes to, the task has the size that it had, no more results are counted than
-- rows were written, and no more batches are written than there are, if each result is that of a row
-- that was written before.
pub Reaches-IsSound :
    {E A : Type 0} (batches : List (List A)) (task : Task) (s : LoopState)
    → Reaches E batches task s
    → IsSound batches (get_size task) s
unfolding turn flatten
Reaches-IsSound batches task s starts = record {
  same_size = refl;
  counted = omega arith;
  in_range = omega arith;
}
Reaches-IsSound {E = E} batches task s' (turns {s = s} t reached fed e) =
    let size = get_size task in
    let here = Reaches-IsSound batches task s reached in
    let event = on_event-IsSound batches size t.event s here fed in
    let next = write_batch-IsSound batches size t.answer (on_event t.event s) event in
    subst (IsSoundExit {E = E} batches size) e next
