-- ===== src/Tasks/Scheduler.antt =====
-- src/dag.rs: `TaskScheduler`. The store is an argument, by the operations that the scheduler calls; a
-- spawned `execute` is a result, the task with the nodes that it is called for. `now` is a reading of
-- the clock.
pub mod Drafts
pub mod Rerun
pub mod Laws
use rdsctl.Base.{
  if◌then◌else◌, is_some, unwrap_or, add64, Text, codes, text_eq, ℕ, ◌-◌, Bool, true, false, ◌||◌,
  Option, none, some, List, [], ◌∷◌, ◌++◌, text_key,
}
use rdsctl.Base.Decimal.{display}
use rdsctl.Base.Map
use rdsctl.Base.Map.{Map}
use rdsctl.Tasks.{
  TaskStatus, running, NodeResult, Step, TaskNode, TaskMeta, new_meta, DagTask, Answer, ok, err,
  index,
}

pub record PersistedNodeDef : Type 0 where
  pub node_id : Text
  pub name : Text
  pub deps : List Text
  pub steps : List Step
  pub status : Text
  pub output : Text
  pub attempts : ℕ
  pub retries : ℕ
  pub timeout_secs : Option ℕ

pub record PersistedTaskDef : Type 0 where
  pub id : Text
  pub kind : Text
  pub instance_id : Text
  pub created_at : ℕ
  pub status : Option Text
  pub started_at : Option ℕ
  pub finished_at : Option ℕ
  pub nodes : List PersistedNodeDef

-- What the scheduler asks of the store. `task_status` is the status in `task_view`, and
-- `task_definition` the record that `serde_json` reads, if it can.
pub record StoreOps (S : Type 0) : Type 0 where
  pub next_task_seq : Text → S → S × ℕ
  pub upsert_task : DagTask → TaskMeta → S → S
  pub upsert_node : Text → TaskNode → NodeResult → S → S
  pub update_task_status : Text → TaskStatus → Option ℕ → S → S
  pub task_status : Text → S → Option Text
  pub delete_task : Text → S → S × Answer (Unit {0})
  pub task_definition : Text → S → Option PersistedTaskDef

pub record TaskScheduler (S : Type 0) : Type 0 where
  pub tasks : Map Text DagTask
  pub store : Option S
  pub next_id : ℕ
  pub running : ℕ
  pub canceled : Map Text Bool

abbrev pub Job : Type 0
Job = DagTask × List TaskNode

abbrev pub in_store : {S : Type 0} → (S → S) → Option S → Option S
in_store f none = none
in_store f (some s) = some (f s)

-- The record of a node that did not start; the row has neither time.
abbrev pub new_result : NodeResult
new_result = record {
  status = TaskStatus.pending;
  output = [];
  attempts = 0;
  started_at = 0;
  finished_at = 0;
}

unfoldable pub new_task : Text → Text → Text → Text → ℕ → List TaskNode → DagTask
unfolding index
new_task id kind instance_id creator now nodes = record {
  id = id;
  kind = kind;
  instance_id = instance_id;
  creator = creator;
  created_at = now;
  meta = new_meta;
  nodes = index (λ n. n.name) nodes [];
  deps = index (λ n. n.deps) nodes [];
  results = [];
  defs = index (λ n. n) nodes [];
  defs_order = nodes;
}

-- `format!("t-{}-{}", kind, seq)`.
abbrev pub task_id : Text → ℕ → Text
task_id kind seq = codes "t-" ++ (kind ++ (codes "-" ++ display seq))

-- `Success`, `Failed` or `Skipped`.
abbrev pub is_terminal : TaskStatus → Bool
is_terminal TaskStatus.pending = false
is_terminal TaskStatus.running = false
is_terminal TaskStatus.success = true
is_terminal TaskStatus.failed = true
is_terminal TaskStatus.skipped = true

abbrev pub terminal_text : Text → Bool
terminal_text s =
    text_eq s (codes "success") || (text_eq s (codes "failed") || text_eq s (codes "skipped"))

abbrev pub not_deletable : Text
not_deletable = codes "运行/待启动任务不可删除"

abbrev pub unknown_task : Text → Text
unknown_task id = codes "任务 " ++ (id ++ codes " 不存在")

module _ {S : Type 0} where
  unfoldable pub cancel : Text → TaskScheduler S → TaskScheduler S × Bool
  cancel id s =
      if is_some (Map.get id s.tasks)
      then (record s { canceled = Map.insert id true s.canceled }, true)
      else (s, false)

  unfoldable pub is_canceled : Text → TaskScheduler S → Bool
  is_canceled id s = unwrap_or (Map.get id s.canceled) false

  -- `tokio::spawn` of `execute`, with the counter of the tasks that run.
  abbrev pub spawn : Text → TaskScheduler S → TaskScheduler S
  spawn id s = record s { canceled = Map.remove id s.canceled; running = add64 s.running 1 }

  -- The rest of the spawned future: the shared task is as `execute` left it.
  unfoldable pub job_done : DagTask → TaskScheduler S → TaskScheduler S
  job_done task s = record s { tasks = Map.insert task.id task s.tasks; running = s.running - 1 }

module _ {S : Type 0} (ops : StoreOps S) where
  -- `next_task_seq`, or the counter of a scheduler with no store.
  abbrev pub take_seq : Text → Option S → TaskScheduler S → TaskScheduler S × ℕ
  take_seq kind none s = (record s { next_id = add64 s.next_id 1 }, s.next_id)
  take_seq kind (some st) s =
      let p = ops.next_task_seq kind st in (record s { store = some p.0 }, p.1)

  unfoldable pub upsert_nodes : Text → List TaskNode → S → S
  upsert_nodes id [] st = st
  upsert_nodes id (n ∷ ns) st = upsert_nodes id ns (ops.upsert_node id n new_result st)

  unfoldable pub submit :
      Text → Text → Text → ℕ → List TaskNode → TaskScheduler S → TaskScheduler S × Text × Job
  unfolding new_task upsert_nodes
  submit kind instance_id creator now nodes s =
      let p = take_seq kind s.store s in
      let id = task_id kind p.1 in
      let task = new_task id kind instance_id creator now nodes in
      let s' = record p.0 {
        tasks = Map.insert id task p.0.tasks;
        store = in_store (λ st. upsert_nodes id nodes (ops.upsert_task task new_meta st)) p.0.store;
      } in
      (spawn id s', id, (task, nodes))

  abbrev pub delete_row : Text → TaskScheduler S → Option S → TaskScheduler S × Answer (Unit {0})
  delete_row id s none = (s, ok tt)
  delete_row id s (some st) = let p = ops.delete_task id st in (record s { store = some p.0 }, p.1)

  abbrev pub history_status : Text → Option S → Option Text
  history_status id none = none
  history_status id (some st) = ops.task_status id st

  abbrev pub delete_history :
      Text → TaskScheduler S → Option Text → TaskScheduler S × Answer (Unit {0})
  delete_history id s none = (s, err (unknown_task id))
  delete_history id s (some status) =
      if terminal_text status then delete_row id s s.store else (s, err not_deletable)

  abbrev pub delete_by :
      Text → TaskScheduler S → Option DagTask → TaskScheduler S × Answer (Unit {0})
  delete_by id s none = delete_history id s (history_status id s.store)
  delete_by id s (some task) =
      if is_terminal task.meta.status
      then delete_row id
          (record s { tasks = Map.remove id s.tasks; canceled = Map.remove id s.canceled }) s.store
      else (s, err not_deletable)

  unfoldable pub delete_task : Text → TaskScheduler S → TaskScheduler S × Answer (Unit {0})
  unfolding text_eq
  delete_task id s = delete_by id s (Map.get id s.tasks)
