-- ===== src/Entity/Task.antt =====
-- entity/task.go: the tasks of file uploads.
pub mod Updated
use mirror_backend.Common.{
  ℕ, String, Bool, true, false, not, ◌&&◌, Option, none, some, ◌==◌, if◌then◌else◌, get_or, is_some,
}

abbrev pub TaskStatus : Type 0
TaskStatus = ℕ

abbrev pub task_status_unknown : TaskStatus
task_status_unknown = 0

abbrev pub task_status_running : TaskStatus
task_status_running = 2

abbrev pub task_status_success : TaskStatus
task_status_success = 3

abbrev pub task_status_failed : TaskStatus
task_status_failed = 4

pub record TaskExtInfo : Type 0 where
  pub file_id : Option String
  pub ori_file_name : Option String
  pub size : Option ℕ
  pub progress : Option ℕ

abbrev pub get_progress : TaskExtInfo → ℕ
get_progress e = get_or 0 e.progress

pub record Task : Type 0 where
  pub id : Option ℕ
  pub tenant_id : Option ℕ
  pub resource_id : Option ℕ
  pub status : TaskStatus
  pub task_type : ℕ
  pub resource_type : ℕ
  pub ext_info : Option TaskExtInfo
  pub creator_id : Option ℕ
  pub create_time : Option ℕ
  pub update_time : Option ℕ

abbrev pub get_tenant_id : Task → ℕ
get_tenant_id e = get_or 0 e.tenant_id

abbrev pub get_resource_id : Task → ℕ
get_resource_id e = get_or 0 e.resource_id

-- `none` is the panic at a nil pointer in `ExtInfo`
abbrev pub get_file_id : Task → Option String
get_file_id e = elim (e.ext_info) [ none ↦ some "" | some info ↦ info.file_id ]

abbrev pub size_of : Option TaskExtInfo → Option ℕ
size_of none = some 0
size_of (some info) = info.size

abbrev pub get_size : Task → Option ℕ
get_size e = size_of e.ext_info

update_status : TaskStatus → Task × Bool → Task × Bool
update_status status (e, has_change) =
    if not (status == task_status_unknown) && not (e.status == status)
    then (record e { status = status }, true)
    else (e, has_change)

-- The change goes to the struct that `ExtInfo` points to: where that is nil, to a new one that the
-- task does not get.
abbrev with_progress : ℕ → Option TaskExtInfo → Option TaskExtInfo
with_progress p none = none
with_progress p (some info) = some (record info { progress = some p })

abbrev progress_of : Option TaskExtInfo → ℕ
progress_of none = 0
progress_of (some info) = get_progress info

update_progress : Option ℕ → Task × Bool → Task × Bool
update_progress none (e, has_change) = (e, has_change)
update_progress (some p) (e, has_change) =
    if not (progress_of e.ext_info == p)
    then (record e { ext_info = with_progress p e.ext_info }, true)
    else (e, has_change)

stamp : ℕ → Task × Bool → Task × Bool
stamp now (e, has_change) =
    if has_change then (record e { update_time = some now }, true) else (e, false)

-- `newTask` gives its status and the progress in its `ExtInfo`
unfoldable pub update : ℕ → TaskStatus → Option ℕ → Task → Task × Bool
unfolding update_status update_progress stamp
update now status progress e =
    stamp now (update_progress progress (update_status status (e, false)))
