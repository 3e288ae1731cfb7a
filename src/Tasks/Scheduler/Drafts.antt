-- ===== src/Tasks/Scheduler/Drafts.antt =====
-- src/dag.rs: `submit_draft`, `start_draft`, `edit_draft`.
use rdsctl.Base.{
  ◌==◌, if◌then◌else◌, length, Text, codes, text_eq, ℕ, Bool, true, false, not, Option, none, some,
  List, ◌++◌, text_key,
}
use rdsctl.Base.Map
use rdsctl.Base.Map.{Map}
use rdsctl.Tasks.{TaskStatus, TaskNode, DagTask, Answer, ok, err}
use rdsctl.Tasks.Scheduler.{
  StoreOps, TaskScheduler, Job, new_task, task_id, unknown_task, spawn, take_seq,
}

abbrev pub user : Text
user = codes "user"

abbrev pub is_pending : TaskStatus → Bool
is_pending TaskStatus.pending = true
is_pending _ = false

module _ {S : Type 0} (ops : StoreOps S) where
  unfoldable pub submit_draft :
      Text → Text → ℕ → List TaskNode → TaskScheduler S → TaskScheduler S × Answer Text
  unfolding new_task
  submit_draft instance_id creator now nodes s =
      let p = take_seq ops user s.store s in
      let id = task_id user p.1 in
      let s' = record p.0 {
        tasks = Map.insert id (new_task id user instance_id creator now nodes) p.0.tasks;
        canceled = Map.remove id p.0.canceled;
      } in
      if length nodes == 0 then (s, err (codes "草稿至少包含一个节点")) else (s', ok id)

module _ {S : Type 0} where
  abbrev pub start_by :
      Text → TaskScheduler S → Option DagTask → TaskScheduler S × Answer (Text × Job)
  start_by id s none = (s, err (unknown_task id))
  start_by id s (some task) =
      if not (text_eq task.kind user)
      then (s, err (codes "仅用户自定义草稿可手动启动"))
      else if not (is_pending task.meta.status)
      then (s, err (codes "仅待启动(pending)的草稿可启动"))
      else if length task.defs_order == 0
      then (s, err (codes "草稿无节点,无法启动"))
      else (spawn id s, ok (codes "草稿 " ++ (id ++ codes " 已启动"), (task, task.defs_order)))

  unfoldable pub start_draft : Text → TaskScheduler S → TaskScheduler S × Answer (Text × Job)
  unfolding text_eq
  start_draft id s = start_by id s (Map.get id s.tasks)

  abbrev pub edit_by :
      Text → List TaskNode → TaskScheduler S → Option DagTask → TaskScheduler S × Answer (Unit {0})
  edit_by id nodes s none = (s, err (unknown_task id))
  edit_by id nodes s (some orig) =
      if not (text_eq orig.kind user)
      then (s, err (codes "仅用户自定义草稿可编辑"))
      else if not (is_pending orig.meta.status)
      then (s, err (codes "仅待启动(pending)的草稿可编辑"))
      else if length nodes == 0
      then (s, err (codes "草稿至少包含一个节点"))
      else (
        record s {
          tasks =
              Map.insert id
                (new_task orig.id orig.kind orig.instance_id orig.creator orig.created_at nodes)
                s.tasks;
          canceled = Map.remove id s.canceled;
        },
        ok tt,
      )

  unfoldable pub edit_draft :
      Text → List TaskNode → TaskScheduler S → TaskScheduler S × Answer (Unit {0})
  unfolding text_eq new_task
  edit_draft id nodes s = edit_by id nodes s (Map.get id s.tasks)
