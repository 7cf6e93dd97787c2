-- ===== src/Job/Upload/Success.antt =====
-- When the loop of job/run_file_upload_tasks/job.go sets a task to success.
use mathlib.Core.List.{flatten}
use mirror_backend.Common.{
  ℕ, zero, suc, ◌+◌, ◌*◌, ◌/◌, ◌%◌, ◌^◌, ◌<◌, ◌≤◌, Bool, true, false, Option, none, some, List, [],
  ◌∷◌, ◌==◌, ltb, if◌then◌else◌, length, length-append, take, All, ◌≡◌, ◌⊎◌, refl, sym, ap, ◌∙◌,
  arith, inl, inr, ==_iff, eq_of_some,
}
use mirror_backend.Entity.Task.Updated.{update-success}
use mirror_backend.Entity.Task.{Task, get_size, update, task_status_success, task_status_unknown}
use mirror_backend.Job.Campaign.Batches.Cover.{IsBatch}
use mirror_backend.Job.Upload.{batch_size}
use mirror_backend.Job.Upload.Sound.{Reaches-IsSound}
use mirror_backend.Job.Upload.Loop.{
  LoopState, Event, result, tick, idle, Turn, Exit, running, returned, nil_size, after_progress,
  upserted, finish, on_tick, on_event, write_batch, turn, Reaches,
}

-- All rows are written only when all batches are, as none of them is empty.
every_batch_written :
    {A : Type 0} (n : ℕ) (bs : List (List A))
    → All (IsBatch batch_size) bs
    → n ≤ length bs
    → length (flatten bs) ≤ length (flatten (take n bs))
    → n ≡ length bs
unfolding flatten
every_batch_written zero [] h few rows = refl
every_batch_written (suc n) [] h few rows = absurd (omega (arith, few))
every_batch_written zero (b ∷ bs) h few rows =
    let first = length-append b (flatten bs) in absurd (omega (arith, h.0.0, first, rows))
every_batch_written (suc n) (b ∷ bs) h few rows =
    let whole : length (flatten (b ∷ bs)) ≡ length b + length (flatten bs) =
      length-append b (flatten bs) in
    let part : length (flatten (take (suc n) (b ∷ bs))) ≡ length b + length (flatten (take n bs)) =
      length-append b (flatten (take n bs)) in
    ap suc (every_batch_written n bs h.1 (omega (arith, few)) (omega (arith, whole, part, rows)))

module _ {E : Type 0} where
  write_batch-success :
      (n : ℕ) (answer : Option E) (x : Exit E) (s' : LoopState)
      → write_batch n answer x ≡ returned none s'
      → x ≡ returned none s'
  unfolding write_batch
  write_batch-success n answer (returned r s) s' h = h
  write_batch-success n answer nil_size s' h = absurd cc
  write_batch-success n answer (running s) s' h = absurd (go (ltb s.batch_num n) answer h)
    where
      go :
          (b : Bool) (answer : Option E)
          → (if b then upserted answer s else running s) ≡ returned none s'
          → ⊥
      go true none h = cc
      go true (some e) h = cc
      go false answer h = cc

  state_of : {r r' : Option E} {s s' : LoopState} → returned r s ≡ returned r' s' → s ≡ s'
  state_of h = cc

  finish-success :
      (now : ℕ) (answer : Option E) (s s' : LoopState)
      → finish now answer s ≡ returned none s'
      → s'.task.status ≡ task_status_success
  unfolding finish
  finish-success now none s s' h =
      sym (ap (λ s. s.task.status) (state_of h)) ∙ update-success now (some 100) s.task
  finish-success now (some e) s s' h = absurd cc

  abbrev shown_tick : ℕ → ℕ → Option E → LoopState → LoopState
  shown_tick now n first s = after_progress first (record s {
    task = (update now task_status_unknown (some ((s.count * 100 % 2 ^ 64) / n)) s.task).0;
  })

  on_tick-success :
      (now n : ℕ) (first second : Option E) (s s' : LoopState)
      → on_tick now first second n s ≡ returned none s'
      → (s'.task.status ≡ task_status_success) × (n ≡ 0 ⊎ n ≡ s.count)
  unfolding on_tick
  on_tick-success now n first second s s' h = go (ltb 0 n) (s.count == n) refl refl h
    where
      go :
          (b c : Bool)
          → ltb 0 n ≡ b
          → (s.count == n) ≡ c
          → (if b
              then (if c
                  then finish now second (shown_tick now n first s)
                  else running (shown_tick now n first s))
              else finish now second s)
            ≡ returned none s'
          → (s'.task.status ≡ task_status_success) × (n ≡ 0 ⊎ n ≡ s.count)
      go true true e f h = (finish-success now second _ s' h, inr (sym ((==_iff s.count n).0 f)))
      go true false e f h = absurd cc
      go false c e f h = (finish-success now second s s' h, inl (ground arith))

  sized_tick-success :
      (now : ℕ) (first second : Option E) (s s' : LoopState) (o : Option ℕ)
      → elim o [ none ↦ nil_size | some n ↦ on_tick now first second n s ] ≡ returned none s'
      → (s'.task.status ≡ task_status_success) × (o ≡ some 0 ⊎ o ≡ some s.count)
  sized_tick-success now first second s s' none h = absurd cc
  sized_tick-success now first second s s' (some n) h =
      let (done, ended) = on_tick-success now n first second s s' h in
      (done, elim ended [ inl e ↦ inl (ap some e) | inr e ↦ inr (ap some e) ])

  on_event-success :
      (e : Event E) (s s' : LoopState)
      → on_event e s ≡ returned none s'
      → (s'.task.status ≡ task_status_success)
        × (get_size s.task ≡ some 0 ⊎ get_size s.task ≡ some s.count)
  unfolding on_event
  on_event-success (result none) s s' h = absurd cc
  on_event-success (result (some e)) s s' h = absurd cc
  on_event-success (tick now first second) s s' h =
      sized_tick-success now first second s s' (get_size s.task) h
  on_event-success idle s s' h = absurd cc

-- A task whose size is the number of its rows, which is not zero, is set to success only when all
-- its batches have been written, if each result is that of a row that was written before.
pub turn-success :
    {E A : Type 0} (batches : List (List A)) (task : Task) (s s' : LoopState) (t : Turn E)
    → All (IsBatch batch_size) batches
    → get_size task ≡ some (length (flatten batches))
    → 0 < length (flatten batches)
    → Reaches E batches task s
    → turn (length batches) t s ≡ returned none s'
    → (s'.task.status ≡ task_status_success)
      × (s.count ≡ length (flatten batches))
      × (s.batch_num ≡ length batches)
unfolding turn
turn-success batches task s s' t sized of_size positive reached h =
    let sound = Reaches-IsSound batches task s reached in
    let event = write_batch-success (length batches) t.answer (on_event t.event s) s' h in
    let (done, ended) = on_event-success t.event s s' event in
    let count : s.count ≡ length (flatten batches) = elim ended [
      | inl e ↦ absurd (omega (arith, eq_of_some (sym e ∙ sound.same_size ∙ of_size), positive))
      | inr e ↦ eq_of_some (sym e ∙ sound.same_size ∙ of_size)
    ] in
    (
      done,
      count,
      every_batch_written s.batch_num batches sized sound.in_range
          (omega (arith, count, sound.counted)),
    )
