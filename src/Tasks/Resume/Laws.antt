-- ===== src/Tasks/Resume/Laws.antt =====
-- src/dag.rs: which nodes of an unfinished task run again after a restart.
use rdsctl.Base.{
  if◌then◌else◌, is_some, keep_if, Text, codes, text_eq, text_eq_iff, ℕ, ◌≡◌, refl, ap, subst, ◌∙◌,
  Bool, true, false, not, Option, none, some, List, [], ◌∷◌, map,
}
use rdsctl.Raft.Config.{mem}
use rdsctl.Tasks.{TaskStatus, TaskNode, DagTask}
use rdsctl.Raft.Config.Quorum.{mem-keep_if}
use rdsctl.Tasks.Cycle.{find_node, deps_of, find_cycle}
use rdsctl.Tasks.Cycle.Laws.{Needs}
use rdsctl.Tasks.Plan.{Env, plan_of}
use rdsctl.Tasks.Execute.{execute}
use rdsctl.Tasks.Execute.Edges.{HasDistinctIds}
use rdsctl.Tasks.Execute.Order.{was_spawned}
use rdsctl.Tasks.Execute.Progress.{listed}
use rdsctl.Tasks.Execute.Completion.{GoesWell}
use rdsctl.Tasks.Execute.Unknown.{execute_unknown_dep}
use rdsctl.Tasks.Scheduler.{PersistedNodeDef}
use rdsctl.Tasks.Labels.{as_str, task_status_from}
use rdsctl.Tasks.Scheduler.Rerun.{node_of}
use rdsctl.Tasks.Resume.{is_open, has_succeeded, succeeded, pruned, to_run}
use rdsctl.Tasks.Resume.Selected.{find_def, HasDistinctDefs, run_if, not_succeeded, to_run_lem}

-- The states of a node that runs again after a restart.
abbrev pub is_unfinished : TaskStatus → Bool
is_unfinished TaskStatus.pending = true
is_unfinished TaskStatus.running = true
is_unfinished TaskStatus.success = false
is_unfinished TaskStatus.failed = false
is_unfinished TaskStatus.skipped = false

abbrev is_success : TaskStatus → Bool
is_success TaskStatus.success = true
is_success _ = false

-- A dependency is kept unless its persisted node reads as a success.
abbrev pub waits_on : Option PersistedNodeDef → Bool
waits_on none = true
waits_on (some nd) = not (is_success (task_status_from nd.status))

abbrev pub waits_for : List PersistedNodeDef → List Text → List Text
waits_for nds ds = keep_if (λ d. waits_on (find_def d nds)) ds

-- What a node in that state becomes after a restart.
abbrev pub again_as : List PersistedNodeDef → PersistedNodeDef → TaskStatus → Option TaskNode
again_as nds nd s =
    if is_unfinished s
    then some (let n = node_of nd in record n { deps = waits_for nds nd.deps })
    else none

is_success-from : (t : Text) → is_success (task_status_from t) ≡ text_eq t (codes "success")
unfolding task_status_from
is_success-from t =
    by_tests (text_eq t (codes "success")) (text_eq t (codes "failed"))
      (text_eq t (codes "skipped")) (text_eq t (codes "running"))
  where
    by_tests :
        (a b c d : Bool)
        → is_success (
            if a
            then TaskStatus.success
            else if b
            then TaskStatus.failed
            else if c
            then TaskStatus.skipped
            else if d
            then TaskStatus.running
            else TaskStatus.pending)
          ≡ a
    by_tests true b c d = refl
    by_tests false true c d = refl
    by_tests false false true d = refl
    by_tests false false false true = refl
    by_tests false false false false = refl

-- An id is listed as a success exactly when its persisted node reads as one.
mem-succeeded :
    (d : Text) (nds : List PersistedNodeDef)
    → HasDistinctDefs nds
    → not (mem d (succeeded nds)) ≡ waits_on (find_def d nds)
unfolding succeeded find_def
mem-succeeded d [] h = refl
mem-succeeded d (nd ∷ nds) (e, h) =
    by_tests (has_succeeded nd) (text_eq nd.node_id d) refl refl (mem-succeeded d nds h)
  where
    absent : text_eq nd.node_id d ≡ true → find_def d nds ≡ none
    absent f = subst (λ y. find_def y nds ≡ none) ((text_eq_iff nd.node_id d).0 f) e

    by_tests :
        (a b : Bool)
        → has_succeeded nd ≡ a
        → text_eq nd.node_id d ≡ b
        → not (mem d (map (λ m. m.node_id) (keep_if has_succeeded nds))) ≡ waits_on (find_def d nds)
        → not (
            mem d (
              map
                (λ m. m.node_id)
                (if a then nd ∷ keep_if has_succeeded nds else keep_if has_succeeded nds)))
          ≡ waits_on (if b then some nd else find_def d nds)
    by_tests true true f g ih = rw (g, is_success-from nd.status, f) refl
    by_tests true false f g ih = rw g ih
    by_tests false true f g ih = rw (is_success-from nd.status, f) (ih ∙ ap waits_on (absent g))
    by_tests false false f g ih = ih

pruned_lem :
    (nds : List PersistedNodeDef) (nd : PersistedNodeDef)
    → HasDistinctDefs nds
    → pruned (succeeded nds) nd ≡ (let n = node_of nd in record n { deps = waits_for nds nd.deps })
pruned_lem nds nd d = ap (λ ds. let n = node_of nd in record n { deps = ds }) (kept nd.deps)
  where
    kept : (ds : List Text) → keep_if (λ e. not (mem e (succeeded nds))) ds ≡ waits_for nds ds
    kept [] = refl
    kept (e ∷ ds) = rw (mem-succeeded e nds d, kept ds) refl

is_open-as_str :
    (nd : PersistedNodeDef) (s : TaskStatus) → nd.status ≡ as_str s → is_open nd ≡ is_unfinished s
unfolding as_str text_eq
is_open-as_str nd TaskStatus.pending e = rw e refl
is_open-as_str nd TaskStatus.running e = rw e refl
is_open-as_str nd TaskStatus.success e = rw e refl
is_open-as_str nd TaskStatus.failed e = rw e refl
is_open-as_str nd TaskStatus.skipped e = rw e refl

-- The ids of the persisted nodes differ, and one of them was persisted in the state `s`. If that is
-- pending or running, the node runs again, as it was persisted but without those dependencies whose own
-- persisted nodes read as a success; a dependency that failed, was skipped or is unknown is kept. In
-- any other state the node does not run again. The ids of the nodes that run differ.
pub find_node-to_run :
    (x : Text) (nds : List PersistedNodeDef) (nd : PersistedNodeDef) (s : TaskStatus)
    → HasDistinctDefs nds
    → find_def x nds ≡ some nd
    → nd.status ≡ as_str s
    → (find_node x (to_run nds) ≡ again_as nds nd s) × HasDistinctIds (to_run nds)
find_node-to_run x nds nd s d f e = (
  (to_run_lem x nds d).0
      ∙ ap (run_if (succeeded nds)) f
      ∙ (rw (is_open-as_str nd s e, pruned_lem nds nd d) refl),
  (to_run_lem x nds d).1,
)

module _ (nds : List PersistedNodeDef) (distinct : HasDistinctDefs nds) where
  -- A node that waits for one that is over and has not succeeded needs what does not run.
  left_over :
      (x d : Text) (nd nd' : PersistedNodeDef)
      → find_def x nds ≡ some nd
      → is_open nd ≡ true
      → mem d nd.deps ≡ true
      → find_def d nds ≡ some nd'
      → is_open nd' ≡ false
      → has_succeeded nd' ≡ false
      → Needs (to_run nds) d x × (listed d (to_run nds) ≡ false)
  unfolding succeeded
  left_over x d nd nd' f o m g over no_success =
      let at_x =
        (to_run_lem x nds distinct).0
        ∙ (ap (run_if (succeeded nds)) f
            ∙ ap (λ b. if b then some (pruned (succeeded nds) nd) else none) o) in
      let at_d =
        (to_run_lem d nds distinct).0
        ∙ (ap (run_if (succeeded nds)) g
            ∙ ap (λ b. if b then some (pruned (succeeded nds) nd') else none) over) in
      (
        ap (λ q. mem d (deps_of q)) at_x
            ∙ mem-keep_if (λ e. not (mem e (succeeded nds))) d nd.deps m
                (ap not (not_succeeded d nds (some nd') distinct g (rw no_success refl))),
        ap is_some at_d,
      )

  -- The ids of the persisted nodes differ, and a node that is pending or running depends on one that is
  -- neither open nor a success. Then, if `find_cycle` reports none for the nodes that run again, none of
  -- their steps fails and nobody cancels the task, the task is reported as a success, and the node was
  -- not started.
  pub resume_failed_dep :
      {World : Type 0} (env : Env World) (task : DagTask) (start_time end_time : ℕ) (x d : Text)
      (nd nd' : PersistedNodeDef)
      → GoesWell env task.id task.instance_id (plan_of (to_run nds))
      → find_cycle (to_run nds) ≡ none
      → find_def x nds ≡ some nd
      → is_open nd ≡ true
      → mem d nd.deps ≡ true
      → find_def d nds ≡ some nd'
      → is_open nd' ≡ false
      → has_succeeded nd' ≡ false
      → ((execute env start_time end_time task (to_run nds)).0.meta.status ≡ TaskStatus.success)
        × (was_spawned x (execute env start_time end_time task (to_run nds)).1 ≡ false)
  resume_failed_dep env task start_time end_time x d nd nd' well acyclic f o m g over no_success =
      let q = left_over x d nd nd' f o m g over no_success in
      execute_unknown_dep (to_run nds) (to_run_lem x nds distinct).1 env task well start_time
        end_time x d acyclic q.0 q.1
