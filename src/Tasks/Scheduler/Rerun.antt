-- ===== src/Tasks/Scheduler/Rerun.antt =====
-- src/dag.rs: `hydrate_task` and `rerun_node`. A task that is rerun is shared with the map of the
-- tasks, so what is written to it is written there too.
use rdsctl.Base.{
  if◌then◌else◌, Text, codes, ℕ, Bool, true, false, not, Option, none, some, List, [], ◌∷◌, ◌++◌,
  map, text_key,
}
use rdsctl.Base.Map
use rdsctl.Base.Map.{Map}
use rdsctl.Tasks.{TaskStatus, NodeResult, TaskNode, TaskMeta, DagTask, Answer, ok, err, index}
use rdsctl.Tasks.Labels.{task_status_from}
use rdsctl.Tasks.Nodes.{StepExecutor, run_node}
use rdsctl.Tasks.Plan.{record_at}
use rdsctl.Tasks.Execute.{is_ok, text_of, outcome_status, is_success}
use rdsctl.Tasks.Scheduler.{PersistedNodeDef, PersistedTaskDef, StoreOps, TaskScheduler, in_store}

-- The node of a persisted definition.
abbrev pub node_of : PersistedNodeDef → TaskNode
node_of nd = record {
  id = nd.node_id;
  name = nd.name;
  deps = nd.deps;
  retries = nd.retries;
  timeout_secs = nd.timeout_secs;
  steps = nd.steps;
}

-- The result of a persisted definition.
unfoldable pub result_of : ℕ → PersistedNodeDef → NodeResult
unfolding task_status_from
result_of now nd = record {
  status = task_status_from nd.status;
  output = nd.output;
  attempts = nd.attempts;
  started_at = now;
  finished_at = now;
}

unfoldable pub results_of : ℕ → List PersistedNodeDef → Map Text NodeResult → Map Text NodeResult
unfolding result_of
results_of now [] m = m
results_of now (nd ∷ nds) m = results_of now nds (Map.insert nd.node_id (result_of now nd) m)

abbrev pub or_now : Option ℕ → ℕ → Option ℕ
or_now none now = some now
or_now (some t) now = some t

abbrev pub status_or_failed : Option Text → TaskStatus
status_or_failed none = TaskStatus.failed
status_or_failed (some s) = task_status_from s

unfoldable pub hydrated : ℕ → PersistedTaskDef → DagTask
unfolding results_of index task_status_from
hydrated now def =
    let nodes = map node_of def.nodes in
    record {
      id = def.id;
      kind = def.kind;
      instance_id = def.instance_id;
      creator = [];
      created_at = def.created_at;
      meta = record {
        status = status_or_failed def.status;
        started_at = or_now def.started_at now;
        finished_at = or_now def.finished_at now;
      };
      nodes = index (λ n. n.name) nodes [];
      deps = index (λ n. n.deps) nodes [];
      results = results_of now def.nodes [];
      defs = index (λ n. n) nodes [];
      defs_order = [];
    }

abbrev pub status_at : Text → Map Text NodeResult → TaskStatus
status_at id m = elim (Map.get id m) [ none ↦ TaskStatus.pending | some r ↦ r.status ]

abbrev pub needs_rerun : TaskStatus → Bool
needs_rerun TaskStatus.failed = true
needs_rerun TaskStatus.skipped = true
needs_rerun _ = false

-- The first dependency that has not succeeded.
unfoldable pub unmet : Map Text NodeResult → List Text → Option Text
unfolding Map.get
unmet m [] = none
unmet m (d ∷ ds) = let rest = unmet m ds in if is_success (status_at d m) then rest else some d

abbrev pub settled_status : TaskStatus → Bool
settled_status TaskStatus.success = true
settled_status TaskStatus.skipped = true
settled_status _ = false

-- All nodes of the definition have succeeded or were skipped.
unfoldable pub all_settled : Map Text NodeResult → Map Text TaskNode → Bool
unfolding Map.get
all_settled m [] = true
all_settled m ((k, n) ∷ defs) =
    let rest = all_settled m defs in if settled_status (status_at k m) then rest else false

abbrev pub final_of : Bool → TaskStatus
final_of b = if b then TaskStatus.success else TaskStatus.failed

-- The task after the node was run again.
unfoldable pub rerun_result : ℕ → Text → Answer Text → ℕ → DagTask → DagTask
unfolding all_settled
rerun_result now id out attempts task =
    let results =
      Map.insert id (record_at (outcome_status out) (text_of out) attempts now) task.results in
    let done = all_settled results task.defs in
    let m = record task.meta {
      status = final_of done;
      finished_at = if done then some now else none;
    } in
    record task { results = results; meta = m }

abbrev pub or_define : Option TaskNode → Option DagTask → DagTask → Text → Option TaskNode × DagTask
or_define (some n) t task id = (some n, task)
or_define none none task id = (none, task)
or_define none (some t2) task id = (Map.get id t2.defs, t2)

-- The row of a task that runs again.
abbrev pub running_meta : TaskMeta → TaskMeta
running_meta m = record m { status = TaskStatus.running; finished_at = none }

abbrev pub rerun_text : Bool → Text → Answer Text
rerun_text true node = ok (codes "节点 " ++ (node ++ codes " 已重试成功"))
rerun_text false node = err (codes "节点 " ++ (node ++ codes " 重试后仍失败"))

abbrev pub is_failed : TaskStatus → Bool
is_failed TaskStatus.failed = true
is_failed _ = false

module _ {S : Type 0} where
  abbrev pub keep_hydrated :
      ℕ → Text → TaskScheduler S → Option PersistedTaskDef → TaskScheduler S × Option DagTask
  keep_hydrated now id s none = (s, none)
  keep_hydrated now id s (some def) =
      (record s { tasks = Map.insert id (hydrated now def) s.tasks }, some (hydrated now def))

module _ {S World : Type 0} (ops : StoreOps S) (executor : StepExecutor World) where
  abbrev pub definition : Text → Option S → Option PersistedTaskDef
  definition id none = none
  definition id (some st) = ops.task_definition id st

  unfoldable pub hydrate_task : ℕ → Text → TaskScheduler S → TaskScheduler S × Option DagTask
  unfolding hydrated
  hydrate_task now id s = keep_hydrated now id s (definition id s.store)

  -- The guards passed: the node is run, its result recorded, and the status of the task settled.
  unfoldable pub rerun_now :
      ℕ
      → Text
      → Text
      → TaskNode
      → DagTask
      → World
      → TaskScheduler S
      → TaskScheduler S × World × Answer Text
  unfolding rerun_result run_node
  rerun_now now id node_id node task w s =
      let run = run_node executor task.id task.instance_id node w in
      let task' = rerun_result now run.id run.out run.attempts task in
      let result = record_at (outcome_status run.out) (text_of run.out) run.attempts now in
      (
        record s {
          tasks = Map.insert id task' s.tasks;
          store =
              in_store
                (λ st. ops.update_task_status task.id task'.meta.status task'.meta.finished_at (
                  ops.upsert_node task.id node result
                    (ops.upsert_task task (running_meta task.meta) st)))
                s.store;
        },
        run.after,
        rerun_text (is_ok run.out) node_id,
      )

  abbrev pub rerun_deps :
      ℕ
      → Text
      → Text
      → TaskNode
      → DagTask
      → World
      → TaskScheduler S
      → Option Text
      → TaskScheduler S × World × Answer Text
  rerun_deps now id node_id node task w s (some d) =
      (s, w, err (codes "上游节点 " ++ (d ++ codes " 未成功,请先重试上游")))
  rerun_deps now id node_id node task w s none = rerun_now now id node_id node task w s

  abbrev pub rerun_defined :
      ℕ
      → Text
      → Text
      → World
      → TaskScheduler S
      → Option TaskNode × DagTask
      → TaskScheduler S × World × Answer Text
  rerun_defined now id node_id w s (none, task) =
      (s, w, err (codes "节点 " ++ (node_id ++ codes " 定义缺失,无法手动重试(节点步骤未持久化)")))
  rerun_defined now id node_id w s (some node, task) =
      if not (needs_rerun (status_at node_id task.results))
      then (s, w, err (codes "节点 " ++ (node_id ++ codes " 当前状态无需重试")))
      else rerun_deps now id node_id node task w s (unmet task.results node.deps)

  abbrev pub second_hydrate :
      ℕ → Text → Option TaskNode → TaskScheduler S → TaskScheduler S × Option DagTask
  second_hydrate now id (some n) s = (s, none)
  second_hydrate now id none s = hydrate_task now id s

  abbrev pub rerun_known :
      ℕ
      → Text
      → Text
      → World
      → TaskScheduler S × Option DagTask
      → TaskScheduler S × World × Answer Text
  rerun_known now id node_id w (s, none) =
      (s, w, err (codes "任务 " ++ (id ++ codes " 不存在(或该任务无持久化节点定义)")))
  rerun_known now id node_id w (s, some task) =
      let nd = Map.get node_id task.defs in
      let p = second_hydrate now id nd s in
      if not (is_failed task.meta.status)
      then (s, w, err (codes "仅失败/跳过(终态)的任务支持手动重试步骤"))
      else rerun_defined now id node_id w p.0 (or_define nd p.1 task node_id)

  abbrev pub find_task :
      ℕ → Text → TaskScheduler S → Option DagTask → TaskScheduler S × Option DagTask
  find_task now id s (some task) = (s, some task)
  find_task now id s none = hydrate_task now id s

  unfoldable pub rerun_node :
      ℕ → Text → Text → World → TaskScheduler S → TaskScheduler S × World × Answer Text
  unfolding hydrate_task rerun_now unmet
  rerun_node now id node_id w s =
      rerun_known now id node_id w (find_task now id s (Map.get id s.tasks))
