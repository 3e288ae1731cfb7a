-- ===== src/Tasks/Resume.antt =====
-- src/dag.rs: `resume_pending` and `resume_one`.
pub mod Laws
pub mod Selected
use rdsctl.Base.{
  ◌==◌, if◌then◌else◌, is_some, length, keep_if, Text, codes, text_eq, ℕ, ◌+◌, Bool, true, false,
  ◌||◌, not, Option, none, some, List, [], ◌∷◌, map, text_key,
}
use rdsctl.Base.Map
use rdsctl.Base.Map.{Map}
use rdsctl.Raft.Config.{others, mem}
use rdsctl.Tasks.{TaskStatus, NodeResult, TaskNode, DagTask, index}
use rdsctl.Tasks.Execute.{running_result}
use rdsctl.Tasks.Scheduler.{
  PersistedNodeDef, PersistedTaskDef, TaskScheduler, Job, terminal_text, spawn,
}
use rdsctl.Tasks.Scheduler.Rerun.{node_of, results_of}

-- `matches!(nd.status.as_str(), "success" | "failed" | "skipped")`.
abbrev pub is_over : PersistedNodeDef → Bool
is_over nd = terminal_text nd.status

abbrev pub is_open : PersistedNodeDef → Bool
is_open nd = text_eq nd.status (codes "pending") || text_eq nd.status (codes "running")

abbrev pub has_succeeded : PersistedNodeDef → Bool
has_succeeded nd = text_eq nd.status (codes "success")

unfoldable pub succeeded : List PersistedNodeDef → List Text
unfolding text_eq
succeeded nds = map (λ nd. nd.node_id) (keep_if has_succeeded nds)

-- A node to run again, without the dependencies that have succeeded.
abbrev pub pruned : List Text → PersistedNodeDef → TaskNode
pruned done nd = let n = node_of nd in record n { deps = keep_if (λ d. not (mem d done)) nd.deps }

unfoldable pub to_run : List PersistedNodeDef → List TaskNode
unfolding succeeded text_eq
to_run nds = map (pruned (succeeded nds)) (keep_if is_open nds)

unfoldable pub mark_running : ℕ → List TaskNode → Map Text NodeResult → Map Text NodeResult
mark_running now [] m = m
mark_running now (n ∷ ns) m = mark_running now ns (Map.insert n.id (running_result now) m)

unfoldable pub resumed_task : ℕ → PersistedTaskDef → DagTask
unfolding to_run mark_running index results_of
resumed_task now def =
    let nodes = map node_of def.nodes in
    record {
      id = def.id;
      kind = def.kind;
      instance_id = def.instance_id;
      creator = [];
      created_at = def.created_at;
      meta = record { status = TaskStatus.running; started_at = some now; finished_at = none };
      nodes = index (λ n. n.name) nodes [];
      deps = index (λ n. n.deps) nodes [];
      results = mark_running now (to_run def.nodes) (results_of now (keep_if is_over def.nodes) []);
      defs = [];
      defs_order = [];
    }

-- The task is in memory and neither succeeded nor failed.
abbrev pub in_progress : Option DagTask → Bool
in_progress none = false
in_progress (some t) = elim t.meta.status [
  | TaskStatus.success ↦ false
  | TaskStatus.failed ↦ false
  | _ ↦ true
]

abbrev pub add_job : Option Job → List Job → List Job
add_job none js = js
add_job (some j) js = j ∷ js

module _ {S : Type 0} where
  unfoldable pub resume_one : ℕ → PersistedTaskDef → TaskScheduler S → TaskScheduler S × Option Job
  unfolding resumed_task
  resume_one now def s =
      let task = resumed_task now def in
      if length (to_run def.nodes) == 0 then (s, none) else (
        spawn def.id (record s { tasks = Map.insert def.id task s.tasks }),
        some (task, to_run def.nodes),
      )

  -- The scan over the definitions that can be read; it counts those that it resumes.
  unfoldable pub resume_all :
      ℕ → List PersistedTaskDef → TaskScheduler S → TaskScheduler S × ℕ × List Job
  unfolding resume_one
  resume_all now [] s = (s, 0, [])
  resume_all now (def ∷ defs) s =
      let p = resume_one now def s in
      let rest = resume_all now defs p.0 in
      let others = resume_all now defs s in
      if in_progress (Map.get def.id s.tasks)
      then others
      else (rest.0, rest.1 + 1, add_job p.1 rest.2)

  -- `leads`: there is no cluster, or this node leads it. `defs` is what the store tells.
  unfoldable pub resume_pending :
      ℕ → Bool → List PersistedTaskDef → TaskScheduler S → TaskScheduler S × ℕ × List Job
  unfolding resume_all
  resume_pending now leads defs s =
      if not (is_some s.store) || not leads then (s, 0, []) else resume_all now defs s
