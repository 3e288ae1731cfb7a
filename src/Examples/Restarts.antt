-- ===== src/Examples/Restarts.antt =====
-- Concrete schedulers and unfinished tasks of src/dag.rs.
use rdsctl.Base.{
  Text, codes, text_eq, text_lt, ◌≡◌, refl, ◌⊎◌, false, none, some, List, [], ◌∷◌, ◌++◌, text_key,
}
use rdsctl.Base.Map
use rdsctl.Base.Map.{Map}
use rdsctl.Tasks.{TaskStatus, noop, DagTask, ok, err}
use rdsctl.Tasks.Cycle.{find_node, find_cycle}
use rdsctl.Tasks.Plan.{plan_of, record_at}
use rdsctl.Tasks.Execute.{execute}
use rdsctl.Tasks.Execute.Edges.{HasDistinctIds}
use rdsctl.Tasks.Execute.Order.{was_spawned}
use rdsctl.Tasks.Scheduler.{PersistedNodeDef, StoreOps, TaskScheduler}
use rdsctl.Tasks.Scheduler.Drafts.{user, start_draft}
use rdsctl.Tasks.Scheduler.Rerun.{rerun_now, rerun_node}
use rdsctl.Tasks.Scheduler.Laws.{start_draft_twice, MayRerun, rerun_node_guards}
use rdsctl.Tasks.Resume.{to_run}
use rdsctl.Tasks.Labels.{as_str}
use rdsctl.Tasks.Resume.Selected.{find_def, HasDistinctDefs}
use rdsctl.Tasks.Resume.Laws.{again_as, find_node-to_run, resume_failed_dep}
use rdsctl.Examples.Graphs.{
  step_node, first_id, second_id, two_nodes, obedient, calm, calm-GoesWell, backup_task,
}

-- A store that forgets what is written.
abbrev blank_store : StoreOps (Unit {0})
blank_store = record {
  next_task_seq = λ kind s. (s, 7);
  upsert_task = λ task m s. s;
  upsert_node = λ id n r s. s;
  update_task_status = λ id status t s. s;
  task_status = λ id s. none;
  delete_task = λ id s. (s, ok tt);
  task_definition = λ id s. none;
}

abbrev draft_id : Text
draft_id = codes "t"

abbrev draft : DagTask
draft = record backup_task { kind = user; defs_order = two_nodes }

abbrev with_draft : TaskScheduler (Unit {0})
with_draft = record {
  tasks = (draft_id, draft) ∷ [];
  store = none;
  next_id = 0;
  running = 0;
  canceled = [];
}

start_draft_twice_example :
    (start_draft draft_id (start_draft draft_id with_draft).0).1
    ≡ ok (codes "草稿 " ++ (draft_id ++ codes " 已启动"), (draft, two_nodes))
unfolding start_draft text_eq Map.get
start_draft_twice_example =
    start_draft_twice draft_id with_draft (codes "草稿 " ++ (draft_id ++ codes " 已启动"))
      (draft, two_nodes) refl

-- The second node failed, the first one succeeded.
abbrev failed_task : DagTask
failed_task = record backup_task {
  meta = record { status = TaskStatus.failed; started_at = some 100; finished_at = some 110 };
  results =
      (first_id, record_at TaskStatus.success [] 1 105)
      ∷ (second_id, record_at TaskStatus.failed [] 2 110)
      ∷ [];
  defs = (first_id, step_node first_id []) ∷ (second_id, step_node second_id (first_id ∷ [])) ∷ [];
}

abbrev with_failed : TaskScheduler (Unit {0})
with_failed = record with_draft { tasks = (draft_id, failed_task) ∷ [] }

rerun_node_guards_example :
    (MayRerun blank_store obedient 120 draft_id second_id tt with_failed failed_task
        (step_node second_id (first_id ∷ []))
      × (rerun_node blank_store obedient 120 draft_id second_id tt with_failed
          ≡ rerun_now blank_store obedient 120 draft_id second_id
              (step_node second_id (first_id ∷ []))
              failed_task
              tt
              with_failed))
    ⊎ ((¬ MayRerun blank_store obedient 120 draft_id second_id tt with_failed failed_task
          (step_node second_id (first_id ∷ [])))
        × ((e : Text) × (rerun_node blank_store obedient 120 draft_id second_id tt with_failed
              ≡ (with_failed, tt, err e))))
unfolding text_eq Map.get
rerun_node_guards_example =
    rerun_node_guards blank_store obedient 120 draft_id second_id tt with_failed failed_task
      (step_node second_id (first_id ∷ [])) refl refl

abbrev stored_node : Text → List Text → Text → PersistedNodeDef
stored_node id deps status = record {
  node_id = id;
  name = id;
  deps = deps;
  steps = noop (codes "s") ∷ [];
  status = status;
  output = [];
  attempts = 1;
  retries = 1;
  timeout_secs = none;
}

-- One node failed before the crash, the node that needs it was not skipped yet.
abbrev interrupted_nodes : List PersistedNodeDef
interrupted_nodes =
    stored_node first_id [] (codes "failed")
    ∷ stored_node second_id (first_id ∷ []) (codes "pending")
    ∷ []

interrupted-HasDistinctDefs : HasDistinctDefs interrupted_nodes
unfolding find_def text_eq
interrupted-HasDistinctDefs = (refl, (refl, tt))

find_node-to_run_example :
    (find_node second_id (to_run interrupted_nodes)
      ≡ again_as interrupted_nodes
          (stored_node second_id (first_id ∷ []) (codes "pending"))
          TaskStatus.pending)
    × HasDistinctIds (to_run interrupted_nodes)
unfolding find_def text_eq as_str
find_node-to_run_example =
    find_node-to_run second_id interrupted_nodes
      (stored_node second_id (first_id ∷ []) (codes "pending")) TaskStatus.pending
      interrupted-HasDistinctDefs refl refl

resume_failed_dep_example :
    ((execute calm 100 110 backup_task (to_run interrupted_nodes)).0.meta.status
      ≡ TaskStatus.success)
    × (was_spawned second_id (execute calm 100 110 backup_task (to_run interrupted_nodes)).1
        ≡ false)
unfolding find_cycle to_run find_def text_eq text_lt
resume_failed_dep_example =
    resume_failed_dep interrupted_nodes interrupted-HasDistinctDefs calm backup_task 100 110
      second_id first_id (stored_node second_id (first_id ∷ []) (codes "pending"))
      (stored_node first_id [] (codes "failed"))
      (calm-GoesWell (codes "t-1") (codes "db") (plan_of (to_run interrupted_nodes))) refl refl refl
      refl refl refl refl
