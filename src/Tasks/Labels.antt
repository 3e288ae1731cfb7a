-- ===== src/Tasks/Labels.antt =====
-- src/dag.rs: the names of the states in the database.
use rdsctl.Base.{if◌then◌else◌, Text, codes, text_eq, ◌≡◌, refl}
use rdsctl.Tasks.{TaskStatus, pending, running, success, failed, skipped}

unfoldable pub as_str : TaskStatus → Text
as_str pending = codes "pending"
as_str running = codes "running"
as_str success = codes "success"
as_str failed = codes "failed"
as_str skipped = codes "skipped"

unfoldable pub task_status_from : Text → TaskStatus
unfolding text_eq
task_status_from s =
    if text_eq s (codes "success")
    then success
    else if text_eq s (codes "failed")
    then failed
    else if text_eq s (codes "skipped")
    then skipped
    else if text_eq s (codes "running")
    then running
    else pending

-- A state that was written is read back.
pub task_status_from-as_str : (s : TaskStatus) → task_status_from (as_str s) ≡ s
unfolding task_status_from as_str
task_status_from-as_str pending = refl
task_status_from-as_str running = refl
task_status_from-as_str success = refl
task_status_from-as_str failed = refl
task_status_from-as_str skipped = refl
