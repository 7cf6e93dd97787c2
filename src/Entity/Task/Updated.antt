-- ===== src/Entity/Task/Updated.antt =====
-- What `Update` of entity/task.go writes to a task.
use mirror_backend.Common.{
  ℕ, Bool, true, false, Option, none, some, ◌==◌, ◌≡◌, refl, ap, ◌∙◌, arith, Bool-cases, inl, inr,
}
use mirror_backend.Entity.Task.{
  Task, TaskStatus, TaskExtInfo, size_of, get_size, with_progress, progress_of, update_status,
  update_progress, stamp, update, task_status_success,
}

with_progress-size : (p : ℕ) (o : Option TaskExtInfo) → size_of (with_progress p o) ≡ size_of o
with_progress-size p none = refl
with_progress-size p (some info) = refl

update_status-ext_info :
    (status : TaskStatus) (e : Task) (b : Bool)
    → (update_status status (e, b)).0.ext_info ≡ e.ext_info
unfolding update_status
update_status-ext_info status e b = ground arith

update_progress-size :
    (p : Option ℕ) (r : Task × Bool) → get_size (update_progress p r).0 ≡ get_size r.0
unfolding update_progress
update_progress-size none (e, b) = refl
update_progress-size (some p) (e, b) = elim (Bool-cases (progress_of e.ext_info == p)) [
  | inl same ↦ rw same refl
  | inr differ ↦ rw differ (with_progress-size p e.ext_info)
]

stamp-ext_info : (now : ℕ) (r : Task × Bool) → (stamp now r).0.ext_info ≡ r.0.ext_info
unfolding stamp
stamp-ext_info now (e, true) = refl
stamp-ext_info now (e, false) = refl

pub update-size :
    (now : ℕ) (status : TaskStatus) (progress : Option ℕ) (e : Task)
    → get_size (update now status progress e).0 ≡ get_size e
unfolding update
update-size now status progress e =
    ap size_of (stamp-ext_info now (update_progress progress (update_status status (e, false))))
    ∙ update_progress-size progress (update_status status (e, false))
    ∙ ap size_of (update_status-ext_info status e false)

pub update-success :
    (now : ℕ) (p : Option ℕ) (e : Task)
    → (update now task_status_success p e).0.status ≡ task_status_success
unfolding update
update-success now none e = ground arith
update-success now (some p) e = ground arith
