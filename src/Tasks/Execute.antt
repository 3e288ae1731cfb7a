-- ===== src/Tasks/Execute.antt =====
-- src/dag.rs: `execute`. The nodes of one wave run at the same time; the environment tells in which
-- order they end, what each of them meets outside, and when the cancellation is seen. A write to the
-- store, the start of a node and its end are events, the newest first.
pub mod Edges
pub mod Release
pub mod Joins
pub mod Order
pub mod Progress
pub mod Completion
pub mod Success
pub mod Recorded
pub mod Outcome
pub mod Unknown
use rdsctl.Base.{
  ◌==◌, if◌then◌else◌, unwrap_or, length, keep_if, Text, codes, text_eq, ℕ, zero, suc, ◌+◌, Bool,
  true, false, ◌||◌, Option, none, some, List, [], ◌∷◌, ◌++◌, text_key,
}
use rdsctl.Base.Map
use rdsctl.Base.Map.{Map}
use rdsctl.Tasks.{TaskStatus, NodeResult, TaskNode, DagTask, Answer, ok, err, contains, index}
use rdsctl.Tasks.Nodes.{run_node}
use rdsctl.Tasks.Plan.{
  Event, spawned, joined, node_row, task_row, audited, Env, Exec, Plan, or_empty, plan_of, persist,
  record_at, release,
}
use rdsctl.Tasks.Cycle.{find_cycle}

abbrev pub upstream_failed : Text
upstream_failed = codes "上游节点失败,跳过"

-- `for n in &nodes { if pending.contains(&n.id) { .. } }` after a failure.
unfoldable pub skip_rest : Bool → (Text → ℕ) → List TaskNode → Exec → Exec
unfolding contains
skip_rest stored now [] r = r
skip_rest stored now (n ∷ ns) r =
    let result = record_at TaskStatus.skipped upstream_failed 0 (now n.id) in
    skip_rest stored now ns (
      if contains n.id r.waiting
      then record r {
        waiting = Map.remove n.id r.waiting;
        results = Map.insert n.id result r.results;
        events = persist stored (node_row n result) r.events;
      }
      else r)

-- A list with one more item, as far from its front as it says.
unfoldable pub insert_at {ℓ} : {A : Type ℓ} → ℕ → A → List A → List A
insert_at i x [] = x ∷ []
insert_at zero x (y ∷ ys) = x ∷ y ∷ ys
insert_at (suc i) x (y ∷ ys) = y ∷ insert_at i x ys

-- The order in which the nodes of a wave end; `position` makes it any order.
unfoldable pub join_order : (Text → ℕ) → List TaskNode → List TaskNode
unfolding insert_at
join_order position [] = []
join_order position (n ∷ ns) = insert_at (position n.id) n (join_order position ns)

abbrev pub running_result : ℕ → NodeResult
running_result now = record {
  status = TaskStatus.running;
  output = [];
  attempts = 0;
  started_at = now;
  finished_at = 0;
}

-- `pending.remove`, the record of a running node, and `joins.spawn`.
unfoldable pub launch : (Text → ℕ) → List TaskNode → Exec → Exec
launch now [] r = r
launch now (n ∷ ns) r = launch now ns (record r {
  waiting = Map.remove n.id r.waiting;
  results = Map.insert n.id (running_result (now n.id)) r.results;
  events = spawned n ∷ r.events;
})

abbrev pub is_ok {ℓ} : {A : Type ℓ} → Answer A → Bool
is_ok (ok a) = true
is_ok (err e) = false

-- `out.unwrap_or_else(|e| e)`.
abbrev pub text_of : Answer Text → Text
text_of (ok o) = o
text_of (err e) = e

abbrev pub outcome_status : Answer Text → TaskStatus
outcome_status (ok o) = TaskStatus.success
outcome_status (err e) = TaskStatus.failed

abbrev pub persist_known : Bool → Option TaskNode → NodeResult → List Event → List Event
persist_known stored none r es = es
persist_known stored (some n) r es = persist stored (node_row n r) es

-- The record of a node that ended.
abbrev pub finished : Bool → Plan → ℕ → Text → Answer Text → ℕ → Exec → Exec
finished stored p now id out attempts r =
    let result = record_at (outcome_status out) (text_of out) attempts now in
    record r {
      any_failed = if is_ok out then r.any_failed else true;
      results = Map.insert id result r.results;
      events =
          persist_known stored (Map.get id p.node_by_id) result (joined id (is_ok out) ∷ r.events);
    }

abbrev pub panicked : ℕ → Text → Exec → Exec
panicked now e r =
    let result = record_at TaskStatus.failed (codes "节点执行异常: " ++ e) 0 now in
    record r { any_failed = true; results = Map.insert (codes "__panic__") result r.results }

module _ {World : Type 0} (env : Env World) (task instance_id : Text) (p : Plan) where
  -- What the spawned future returns.
  unfoldable pub answer : ℕ → TaskNode → Answer Text × ℕ
  unfolding run_node
  answer k n =
      let run = run_node env.executor task instance_id n (env.begins k n) in
      if env.cancel_flag k n.id then (err (codes "任务已取消"), 0) else (run.out, run.attempts)

  -- One round of `joins.join_next()`.
  abbrev pub settle_by : ℕ → TaskNode → Option Text → Exec → Exec
  settle_by k n (some e) r = panicked (env.clock k n.id) e r
  settle_by k n none r =
      release p (or_empty (Map.get n.id p.dependents))
        (finished env.has_store p (env.clock k n.id) n.id (answer k n).0 (answer k n).1 r)

  unfoldable pub join_all : ℕ → List TaskNode → Exec → Exec
  unfolding release answer
  join_all k [] r = r
  join_all k (n ∷ ns) r = join_all k ns (settle_by k n (env.panics k n.id) r)

  unfoldable pub wave : ℕ → Exec → Exec
  unfolding join_all launch join_order
  wave k r =
      join_all k (join_order (env.position k) r.ready)
        (record (launch (env.clock k) r.ready r) { ready = [] })

  -- The `while` loop: each round starts a node that waits, so the nodes bound the rounds.
  unfoldable pub waves : ℕ → ℕ → Exec → Exec
  unfolding wave skip_rest
  waves zero k r = r
  waves (suc f) k r =
      let r' = wave k r in
      let rest = waves f (k + 1) r' in
      if length r.ready == 0 || env.is_canceled k
      then r
      else if r'.any_failed
      then skip_rest env.has_store (env.clock k) p.nodes r'
      else rest

abbrev pub no_deps_left : Map Text ℕ → TaskNode → Bool
no_deps_left m n = unwrap_or (Map.get n.id m) 0 == 0

unfoldable pub begin : List TaskNode → Exec
unfolding Map.get Map.insert index
begin nodes =
    let left = index (λ n. length n.deps) nodes [] in
    record {
      deps_left = left;
      waiting = index (λ n. tt) nodes [];
      ready = keep_if (no_deps_left left) nodes;
      any_failed = false;
      results = [];
      events = [];
    }

abbrev pub cycle_result : Text → ℕ → TaskNode → NodeResult
cycle_result cycle now n =
    if text_eq n.id cycle
    then record_at TaskStatus.failed (codes "DAG 检测到环: " ++ cycle) 0 now
    else record_at TaskStatus.skipped upstream_failed 0 now

unfoldable pub mark_cycle : Bool → (Text → ℕ) → Text → List TaskNode → Exec → Exec
mark_cycle stored now cycle [] r = r
mark_cycle stored now cycle (n ∷ ns) r =
    let result = cycle_result cycle (now n.id) n in
    mark_cycle stored now cycle ns (record r {
      results = Map.insert n.id result r.results;
      events = persist stored (node_row n result) r.events;
    })

abbrev pub is_success : TaskStatus → Bool
is_success TaskStatus.success = true
is_success _ = false

-- `finish_task`.
abbrev pub finish_task : Bool → ℕ → TaskStatus → DagTask → List Event → DagTask × List Event
finish_task stored now s task es =
    let m = record task.meta { status = s; finished_at = some now } in
    (
      record task { meta = m },
      persist stored (audited (is_success s)) (persist stored (task_row m) es),
    )

abbrev pub final_status : Bool → Bool → TaskStatus
final_status any_failed canceled =
    if any_failed
    then TaskStatus.failed
    else if canceled
    then TaskStatus.failed
    else TaskStatus.success

abbrev pub end_of :
    {World : Type 0} → Env World → ℕ → DagTask → TaskStatus → Exec → DagTask × List Event
end_of env now task s r =
    finish_task env.has_store now s (record task { results = r.results }) r.events

-- The run of the nodes, when there is no cycle.
unfoldable pub run_graph : {World : Type 0} → Env World → Text → Text → List TaskNode → Exec → Exec
unfolding waves
run_graph env task instance_id nodes r =
    waves env task instance_id (plan_of nodes) (length nodes + 1) 0 r

abbrev pub by_cycle :
    {World : Type 0}
    → Env World
    → ℕ
    → DagTask
    → List TaskNode
    → Exec
    → Option Text
    → DagTask × List Event
by_cycle env end_time task nodes r (some c) =
    end_of env end_time task TaskStatus.failed (mark_cycle env.has_store (env.clock 0) c nodes r)
by_cycle env end_time task nodes r none =
    let r' = run_graph env task.id task.instance_id nodes r in
    end_of env end_time task (final_status r'.any_failed env.canceled_at_end) r'

-- `start_time` and `end_time` are readings of the clock.
unfoldable pub execute :
    {World : Type 0} → Env World → ℕ → ℕ → DagTask → List TaskNode → DagTask × List Event
unfolding begin run_graph mark_cycle find_cycle
execute env start_time end_time task nodes =
    let m = record task.meta { status = TaskStatus.running; started_at = some start_time } in
    let started = record task { meta = m } in
    let r = record (begin nodes) {
      results = task.results;
      events = persist env.has_store (task_row (record m { finished_at = none })) [];
    } in
    by_cycle env end_time started nodes r (find_cycle nodes)
