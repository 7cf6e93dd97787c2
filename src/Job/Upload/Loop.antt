-- ===== src/Job/Upload/Loop.antt =====
-- The loop of a task in job/run_file_upload_tasks/job.go that writes the batches and counts the
-- results. A turn takes what the `select` finds, and then writes a batch.
use mirror_backend.Common.{
  ℕ, ◌+◌, ◌*◌, ◌/◌, ◌%◌, ◌^◌, ◌<◌, Option, none, some, List, [], ◌∷◌, ◌==◌, ltb, if◌then◌else◌,
  length, take, ◌≡◌,
}
use mathlib.Core.List.{flatten}
use mirror_backend.Entity.Task.{
  Task, TaskStatus, task_status_unknown, task_status_running, task_status_success,
  task_status_failed, get_size, update,
}

pub record LoopState : Type 0 where
  pub task : Task
  pub count : ℕ
  pub batch_num : ℕ
  -- the statuses sent to the goroutine that writes them, the last one first
  pub sent : List TaskStatus

pub data Event (E : Type 0) : Type 0 where
  -- a result of `upsertResChan`
  result : Option E → Event E
  -- the ticker: the time, and what `taskRepo.Update` answers for the progress and for the end
  tick : ℕ → Option E → Option E → Event E
  -- nothing is ready
  idle : Event E

-- an event, and what `BatchUpsert` answers if it is called
pub record Turn (E : Type 0) : Type 0 where
  pub event : Event E
  pub answer : Option E

pub data Exit (E : Type 0) : Type 0 where
  running : LoopState → Exit E
  returned : Option E → LoopState → Exit E
  -- a nil pointer for the size
  nil_size : Exit E

abbrev pub send : TaskStatus → LoopState → LoopState
send status s = record s { sent = status ∷ s.sent }

module _ {E : Type 0} where
  abbrev pub fail : E → LoopState → Exit E
  fail e s = returned (some e) (send task_status_failed s)

  -- a failed write of the progress is left to the next one
  abbrev pub after_progress : Option E → LoopState → LoopState
  after_progress none s = s
  after_progress (some e) s = send task_status_running s

  abbrev pub saved : Option E → LoopState → Exit E
  saved none s = returned none s
  saved (some e) s = fail e s

  unfoldable pub finish : ℕ → Option E → LoopState → Exit E
  finish now answer s =
      saved answer (record s { task = (update now task_status_success (some 100) s.task).0 })

  unfoldable pub on_tick : ℕ → Option E → Option E → ℕ → LoopState → Exit E
  unfolding finish
  on_tick now first second size s =
      let progress = (s.count * 100 % 2 ^ 64) / size in
      let shown =
        after_progress first
          (record s { task = (update now task_status_unknown (some progress) s.task).0 }) in
      if ltb 0 size
      then (if s.count == size then finish now second shown else running shown)
      else finish now second s

  unfoldable pub on_event : Event E → LoopState → Exit E
  unfolding on_tick
  on_event (result none) s = running (record s { count = (s.count + 1) % 2 ^ 64 })
  on_event (result (some e)) s = fail e (record s { count = (s.count + 1) % 2 ^ 64 })
  on_event (tick now first second) s = elim (get_size s.task) [
    | none ↦ nil_size
    | some size ↦ on_tick now first second size s
  ]
  on_event idle s = running s

  abbrev pub upserted : Option E → LoopState → Exit E
  upserted none s = running (record s { batch_num = s.batch_num + 1 })
  upserted (some e) s = fail e s

  -- the batch that the turn writes, if one is left
  unfoldable pub write_batch : ℕ → Option E → Exit E → Exit E
  write_batch batch_count answer (running s) =
      if ltb s.batch_num batch_count then upserted answer s else running s
  write_batch batch_count answer (returned r s) = returned r s
  write_batch batch_count answer nil_size = nil_size

  unfoldable pub turn : ℕ → Turn E → LoopState → Exit E
  unfolding on_event write_batch
  turn batch_count t s = write_batch batch_count t.answer (on_event t.event s)

abbrev pub initial : Task → LoopState
initial task = record { task = task; count = 0; batch_num = 0; sent = [] }

module _ (E : Type 0) {A : Type 0} (batches : List (List A)) where
  -- A result without an error is that of a row which was written before.
  abbrev pub IsFed : Event E → LoopState → Type 0
  IsFed (result none) s = s.count < length (flatten (take s.batch_num batches))
  IsFed _ s = Unit

  -- the states that the loop may come to
  pub data Reaches (task : Task) : LoopState → Type 0 where
    starts : Reaches task (initial task)
    turns :
        {s s' : LoopState} (t : Turn E)
        → Reaches task s
        → IsFed t.event s
        → turn (length batches) t s ≡ running s'
        → Reaches task s'
