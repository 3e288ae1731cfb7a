-- ===== src/Examples/Graphs.antt =====
-- Concrete task graphs of src/dag.rs.
use rdsctl.Base.{
  ltb, if◌then◌else◌, length, All, Text, codes, text_eq, text_lt, ℕ, zero, suc, ◌+◌, ◌*◌, ◌≡◌, refl,
  ◌↔◌, Bool, true, false, Option, none, some, List, [], ◌∷◌, ◌++◌, arith,
}
use rdsctl.Base.Decimal.{display}
use rdsctl.Tasks.{TaskStatus, Step, noop, StepCtx, TaskNode, new_meta, DagTask, ok, err}
use rdsctl.Tasks.Cycle.{find_node, search_from, no_marks, find_cycle}
use rdsctl.Tasks.Cycle.Laws.{IsGrounded}
use rdsctl.Tasks.Cycle.Graph.{find_cycle_iff}
use rdsctl.Tasks.Nodes.{StepExecutor, step_ctx, next_step, run_steps, try_node, run_node}
use rdsctl.Tasks.Nodes.Laws.{Verdict, run_node-Verdict}
use rdsctl.Tasks.Plan.{Env, Plan, plan_of}
use rdsctl.Tasks.Execute.{is_ok, answer, execute}
use rdsctl.Tasks.Execute.Edges.{HasDistinctIds}
use rdsctl.Tasks.Execute.Order.{was_spawned, InOrder}
use rdsctl.Tasks.Execute.Order.Start.{execute-InOrder}
use rdsctl.Tasks.Execute.Completion.{GoesWell}
use rdsctl.Tasks.Execute.Unknown.{execute_unknown_dep}
use rdsctl.Tasks.Execute.Outcome.{RunsWell, execute_completes}

abbrev pub step_node : Text → List Text → TaskNode
step_node id deps = record {
  id = id;
  name = id;
  deps = deps;
  retries = 1;
  timeout_secs = some 5;
  steps = noop (codes "s") ∷ [];
}

abbrev pub first_id : Text
first_id = codes "a"

abbrev pub second_id : Text
second_id = codes "b"

abbrev lost_id : Text
lost_id = codes "z"

abbrev pub two_nodes : List TaskNode
two_nodes = step_node second_id (first_id ∷ []) ∷ step_node first_id [] ∷ []

abbrev lost_nodes : List TaskNode
lost_nodes = step_node second_id (lost_id ∷ []) ∷ step_node first_id [] ∷ []

two_nodes-HasDistinctIds : HasDistinctIds two_nodes
unfolding find_node text_eq
two_nodes-HasDistinctIds = (refl, (refl, tt))

lost_nodes-HasDistinctIds : HasDistinctIds lost_nodes
unfolding find_node text_eq
lost_nodes-HasDistinctIds = (refl, (refl, tt))

-- Every step succeeds at once.
abbrev pub obedient : StepExecutor (Unit {0})
obedient ctx step w = record { after = w; took_ms = 0; result = ok (codes "done"); dropped = w }

-- The first step that is run fails, the others succeed.
abbrev warming : StepExecutor ℕ
warming ctx step zero = record { after = 1; took_ms = 0; result = err (codes "cold"); dropped = 1 }
warming ctx step (suc n) = record {
  after = suc n;
  took_ms = 7;
  result = ok (codes "done");
  dropped = suc n;
}

abbrev pub calm : Env (Unit {0})
calm = record {
  executor = obedient;
  begins = λ k n. tt;
  position = λ k x. 0;
  panics = λ k x. none;
  cancel_flag = λ k x. false;
  is_canceled = λ k. false;
  canceled_at_end = false;
  clock = λ k x. 100 + k;
  has_store = true;
}

obedient_steps :
    (ctx : ℕ → StepCtx) (limit : Option ℕ) (ss : List Step) (i : ℕ) (w : Unit {0})
    → (run_steps obedient ctx limit ss i w).node_err ≡ none
unfolding run_steps
obedient_steps ctx none [] i w = refl
obedient_steps ctx (some t) [] i w = refl
obedient_steps ctx none (s ∷ ss) i w = obedient_steps ctx none ss (i + 1) w
obedient_steps ctx (some t) (s ∷ ss) i w =
    timely (ltb (t * 1000) 0) (ground arith) (obedient_steps ctx (some t) ss (i + 1) w)
  where
    timely :
        (b : Bool)
        → b ≡ false
        → (run_steps obedient ctx (some t) ss (i + 1) w).node_err ≡ none
        → (next_step
            (if b
              then (w, err (codes "步骤超时(>" ++ (display t ++ codes "s)")))
              else (w, ok (codes "done")))
            (run_steps obedient ctx (some t) ss (i + 1))).node_err
          ≡ none
    timely b e rest = rw e rest

obedient_node :
    (task instance_id : Text) (n : TaskNode) (w : Unit {0})
    → is_ok (run_node obedient task instance_id n w).out ≡ true
unfolding run_node try_node
obedient_node task instance_id n w =
    rw (obedient_steps (step_ctx task instance_id n.id) n.timeout_secs n.steps 0 w) refl

pub calm-GoesWell : (task instance_id : Text) (p : Plan) → GoesWell calm task instance_id p
unfolding answer run_node
calm-GoesWell task instance_id p = record {
  no_panic = λ k x. refl;
  all_ok = λ k n. obedient_node task instance_id n tt;
  not_canceled = λ k. refl;
  not_canceled_at_end = refl;
}

abbrev pub backup_task : DagTask
backup_task = record {
  id = codes "t-1";
  kind = codes "backup";
  instance_id = codes "db";
  creator = codes "ana";
  created_at = 90;
  meta = new_meta;
  nodes = [];
  deps = [];
  results = [];
  defs = [];
  defs_order = [];
}

execute-InOrder_example : InOrder (execute calm 100 110 backup_task two_nodes).1
execute-InOrder_example =
    execute-InOrder two_nodes two_nodes-HasDistinctIds calm 100 110 backup_task

find_cycle_iff_example :
    (search_from two_nodes (length two_nodes + 1) two_nodes no_marks ≡ some (find_cycle two_nodes))
    × ((find_cycle two_nodes ≡ none) ↔ All (λ n. IsGrounded two_nodes n.id) two_nodes)
find_cycle_iff_example = find_cycle_iff two_nodes

execute_completes_example :
    ((execute calm 100 110 backup_task two_nodes).0.meta.status ≡ TaskStatus.success)
    × All (RunsWell (execute calm 100 110 backup_task two_nodes)) two_nodes
unfolding find_cycle text_eq text_lt
execute_completes_example =
    execute_completes two_nodes two_nodes-HasDistinctIds calm backup_task
      (calm-GoesWell (codes "t-1") (codes "db") (plan_of two_nodes)) 100 110 refl
      ((refl, tt), (tt, tt))

execute_unknown_dep_example :
    ((execute calm 100 110 backup_task lost_nodes).0.meta.status ≡ TaskStatus.success)
    × (was_spawned second_id (execute calm 100 110 backup_task lost_nodes).1 ≡ false)
unfolding find_cycle text_eq text_lt
execute_unknown_dep_example =
    execute_unknown_dep lost_nodes lost_nodes-HasDistinctIds calm backup_task
      (calm-GoesWell (codes "t-1") (codes "db") (plan_of lost_nodes)) 100 110 second_id lost_id refl
      refl refl

run_node-Verdict_example :
    (try_node warming (codes "t-1") (codes "db") (step_node first_id []) 2 0 0
      ≡ some (run_node warming (codes "t-1") (codes "db") (step_node first_id []) 0))
    × Verdict warming
        (codes "t-1")
        (codes "db")
        (step_node first_id [])
        1
        1
        0
        (run_node warming (codes "t-1") (codes "db") (step_node first_id []) 0).attempts
        (run_node warming (codes "t-1") (codes "db") (step_node first_id []) 0).out
run_node-Verdict_example =
    run_node-Verdict warming (codes "t-1") (codes "db") (step_node first_id []) 0 (omega arith)

-- The second attempt succeeds.
warm_run : (run_node warming (codes "t-1") (codes "db") (step_node first_id []) 0).attempts ≡ 2
unfolding run_node
warm_run = refl

-- A cycle of two nodes is found.
cycle_found :
    find_cycle (step_node first_id (second_id ∷ []) ∷ step_node second_id (first_id ∷ []) ∷ [])
    ≡ some first_id
unfolding find_cycle text_eq text_lt
cycle_found = refl
