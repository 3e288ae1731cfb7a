-- ===== src/Tasks/Scheduler/Laws.antt =====
-- src/dag.rs: the guards of the scheduler's operations.
use mathlib.Core.Bool.{false≢true}
use rdsctl.Base.{
  ◌==◌, if◌then◌else◌, Bool-cases, is_some, length, All, Text, codes, text_eq, ℕ, ◌≡◌, refl, sym,
  ap, subst, ◌∙◌, ◌↔◌, ◌⊎◌, inl, inr, Bool, true, false, not, Option, none, some, List, [], ◌∷◌,
  ◌++◌, text_key,
}
use rdsctl.Base.Map
use rdsctl.Base.Map.{Map}
use rdsctl.Tasks.{TaskStatus, NodeResult, TaskNode, DagTask, Answer, ok, err}
use rdsctl.Tasks.Nodes.{StepExecutor}
use rdsctl.Tasks.Plan.{record_at}
use rdsctl.Tasks.Execute.{is_ok, text_of, outcome_status, is_success}
use rdsctl.Tasks.Scheduler.{StoreOps, TaskScheduler, Job, spawn}
use rdsctl.Tasks.Scheduler.Drafts.{user, is_pending, start_by, start_draft}
use rdsctl.Tasks.Scheduler.Rerun.{
  status_at, needs_rerun, unmet, settled_status, all_settled, final_of, rerun_result, is_failed,
  rerun_now, rerun_deps, rerun_node,
}

-- A draft that was not started and has nodes.
abbrev pub Startable : DagTask → Type 0
Startable t =
    (text_eq t.kind user ≡ true)
    × (is_pending t.meta.status ≡ true)
    × ((length t.defs_order == 0) ≡ false)

module _ {S : Type 0} (id : Text) where
  -- The answer of `start_draft` depends on the task only, and the tasks stay.
  same_answer :
      (o : Option DagTask) (s s' : TaskScheduler S) → (start_by id s o).1 ≡ (start_by id s' o).1
  same_answer none s s' = refl
  same_answer (some task) s s' =
      by_tests (text_eq task.kind user) (is_pending task.meta.status) (length task.defs_order == 0)
        refl refl refl
    where
      by_tests :
          (a b c : Bool)
          → text_eq task.kind user ≡ a
          → is_pending task.meta.status ≡ b
          → (length task.defs_order == 0) ≡ c
          → (start_by id s (some task)).1 ≡ (start_by id s' (some task)).1
      by_tests false b c e f g = rw e refl
      by_tests true false c e f g = rw (e, f) refl
      by_tests true true true e f g = rw (e, f, g) refl
      by_tests true true false e f g = rw (e, f, g) refl

  tasks_kept : (o : Option DagTask) (s : TaskScheduler S) → (start_by id s o).0.tasks ≡ s.tasks
  tasks_kept none s = refl
  tasks_kept (some task) s =
      by_tests (text_eq task.kind user) (is_pending task.meta.status) (length task.defs_order == 0)
        refl refl refl
    where
      by_tests :
          (a b c : Bool)
          → text_eq task.kind user ≡ a
          → is_pending task.meta.status ≡ b
          → (length task.defs_order == 0) ≡ c
          → (start_by id s (some task)).0.tasks ≡ s.tasks
      by_tests false b c e f g = rw e refl
      by_tests true false c e f g = rw (e, f) refl
      by_tests true true true e f g = rw (e, f, g) refl
      by_tests true true false e f g = rw (e, f, g) refl

module _ {S : Type 0} (id : Text) (s : TaskScheduler S) where
  -- What `start_draft` answers for the task of this id.
  abbrev Started : Option DagTask → TaskScheduler S × Answer (Text × Job) → Type 0
  Started o p =
      ((is_ok p.1 ≡ true) ↔ ((task : DagTask) × (o ≡ some task) × Startable task))
      × (p.0 ≡ (if is_ok p.1 then spawn id s else s))

  not-Startable :
      (task : DagTask) (e : Text) → (Startable task → ⊥) → Started (some task) (s, err e)
  not-Startable task e no_start = (
    (λ h. absurd (false≢true h), λ (t, g, k). absurd (no_start (subst Startable (sym (same g)) k))),
    refl,
  )
    where
      same : {t : DagTask} → some task ≡ some t → task ≡ t
      same h = cc

  start_by-Started : (o : Option DagTask) → Started o (start_by id s o)
  start_by-Started none = ((λ h. absurd (false≢true h), λ (t, g, k). absurd (no_task g)), refl)
    where
      no_task : {t : DagTask} → none ≡ some t → ⊥
      no_task h = cc
  start_by-Started (some task) =
      by_tests (text_eq task.kind user) (is_pending task.meta.status) (length task.defs_order == 0)
        refl refl refl
    where
      by_tests :
          (a b c : Bool)
          → text_eq task.kind user ≡ a
          → is_pending task.meta.status ≡ b
          → (length task.defs_order == 0) ≡ c
          → Started (some task) (start_by id s (some task))
      by_tests false b c e f g =
          rw e (not-Startable task (codes "仅用户自定义草稿可手动启动") (λ h. false≢true (sym e ∙ h.0)))
      by_tests true false c e f g =
          rw (e, f)
            (not-Startable task (codes "仅待启动(pending)的草稿可启动") (λ h. false≢true (sym f ∙ h.1)))
      by_tests true true true e f g =
          rw (e, f, g) (not-Startable task (codes "草稿无节点,无法启动") (λ h. false≢true (sym h.2 ∙ g)))
      by_tests true true false e f g =
          rw (e, f, g) ((λ h. (task, refl, (e, f, g)), λ h. refl), refl)

  -- `start_draft` starts a task exactly when it is a draft of the user that was not started and has
  -- nodes; else the scheduler is unchanged.
  pub start_draft_iff :
      ((is_ok (start_draft id s).1 ≡ true)
        ↔ ((task : DagTask) × (Map.get id s.tasks ≡ some task) × Startable task))
      × ((start_draft id s).0 ≡ (if is_ok (start_draft id s).1 then spawn id s else s))
  unfolding start_draft
  start_draft_iff = start_by-Started (Map.get id s.tasks)

  -- A draft that is started is not marked: until the spawned `execute` runs, it is started again by a
  -- second call, which spawns the same nodes.
  pub start_draft_twice :
      (text : Text) (job : Job)
      → (start_draft id s).1 ≡ ok (text, job)
      → (start_draft id (start_draft id s).0).1 ≡ ok (text, job)
  unfolding start_draft
  start_draft_twice text job e =
      ap (λ m. (start_by id (start_draft id s).0 (Map.get id m)).1)
        (tasks_kept id (Map.get id s.tasks) s)
      ∙ (same_answer id (Map.get id s.tasks) (start_draft id s).0 s ∙ e)

-- All results of a list of dependencies are successes.
abbrev pub AllSucceeded : Map Text NodeResult → List Text → Type 0
AllSucceeded m = All (λ d. is_success (status_at d m) ≡ true)

unmet_iff : (m : Map Text NodeResult) (ds : List Text) → (unmet m ds ≡ none) ↔ AllSucceeded m ds
unfolding unmet
unmet_iff m [] = (λ h. tt, λ h. refl)
unmet_iff m (d ∷ ds) = elim (Bool-cases (is_success (status_at d m))) [
  | inl e ↦ rw e (λ h. (refl, (unmet_iff m ds).0 h), λ h. (unmet_iff m ds).1 h.1)
  | inr e ↦ rw e (λ h. absurd (cc), λ h. absurd (false≢true h.0))
]

all_settled_iff :
    (m : Map Text NodeResult) (defs : Map Text TaskNode)
    → (all_settled m defs ≡ true) ↔ All (λ d. settled_status (status_at d.0 m) ≡ true) defs
unfolding all_settled
all_settled_iff m [] = (λ h. tt, λ h. refl)
all_settled_iff m ((k, n) ∷ defs) = elim (Bool-cases (settled_status (status_at k m))) [
  | inl e ↦ rw e (λ h. (refl, (all_settled_iff m defs).0 h), λ h. (all_settled_iff m defs).1 h.1)
  | inr e ↦ rw e (λ h. absurd (false≢true h), λ h. absurd (false≢true h.0))
]

status_of_final : (b : Bool) → (final_of b ≡ TaskStatus.success) ↔ (b ≡ true)
status_of_final true = (λ h. refl, λ h. refl)
status_of_final false = (λ h. absurd (cc), λ h. absurd (false≢true h))

-- After a node was run again, the task is a success exactly when every node of its definition has
-- succeeded or was skipped, and it is finished only then.
pub rerun_result_iff :
    (now : ℕ) (id : Text) (out : Answer Text) (attempts : ℕ) (task : DagTask)
    → (((rerun_result now id out attempts task).meta.status ≡ TaskStatus.success)
        ↔ All
            (λ d.
              settled_status (status_at d.0 (rerun_result now id out attempts task).results) ≡ true)
            task.defs)
      × (is_some (rerun_result now id out attempts task).meta.finished_at
          ≡ is_success (rerun_result now id out attempts task).meta.status)
unfolding rerun_result
rerun_result_iff now id out attempts task =
    let results =
      Map.insert id (record_at (outcome_status out) (text_of out) attempts now) task.results in
    let done = all_settled results task.defs in
    (
      (
        λ h. (all_settled_iff results task.defs).0 ((status_of_final done).0 h),
        λ h. (status_of_final done).1 ((all_settled_iff results task.defs).1 h),
      ),
      same_time done,
    )
  where
    same_time : (b : Bool) → is_some (if b then some now else none) ≡ is_success (final_of b)
    same_time true = refl
    same_time false = refl

module _ {S World : Type 0} (ops : StoreOps S) (executor : StepExecutor World) (now : ℕ)
    (id node_id : Text) (w : World) (s : TaskScheduler S) (task : DagTask) (node : TaskNode) where
  -- A node that may be run again: its task has failed, it has failed or was skipped, and its
  -- dependencies have succeeded.
  abbrev pub MayRerun : Type 0
  MayRerun =
      (is_failed task.meta.status ≡ true)
      × (needs_rerun (status_at node_id task.results) ≡ true)
      × AllSucceeded task.results node.deps

  abbrev Ran : TaskScheduler S × World × Answer Text → Type 0
  Ran p =
      (MayRerun × (p ≡ rerun_now ops executor now id node_id node task w s))
      ⊎ ((MayRerun → ⊥) × ((e : Text) × (p ≡ (s, w, err e))))

  by_deps :
      (o : Option Text)
      → unmet task.results node.deps ≡ o
      → is_failed task.meta.status ≡ true
      → needs_rerun (status_at node_id task.results) ≡ true
      → Ran (rerun_deps ops executor now id node_id node task w s o)
  by_deps none e f g = inl ((f, g, (unmet_iff task.results node.deps).0 e), refl)
  by_deps (some d) e f g = inr (
    λ h. none_some (sym ((unmet_iff task.results node.deps).1 h.2) ∙ e),
    (codes "上游节点 " ++ (d ++ codes " 未成功,请先重试上游"), refl),
  )
    where
      none_some : {t : Text} → none ≡ some t → ⊥
      none_some h = cc

  by_status :
      (a b : Bool)
      → is_failed task.meta.status ≡ a
      → needs_rerun (status_at node_id task.results) ≡ b
      → Ran (
          if not a
          then (s, w, err (codes "仅失败/跳过(终态)的任务支持手动重试步骤"))
          else if not b
          then (s, w, err (codes "节点 " ++ (node_id ++ codes " 当前状态无需重试")))
          else rerun_deps ops executor now id node_id node task w s (unmet task.results node.deps))
  by_status false b e f = inr (λ h. false≢true (sym e ∙ h.0), (codes "仅失败/跳过(终态)的任务支持手动重试步骤", refl))
  by_status true false e f =
      inr (λ h. false≢true (sym f ∙ h.1), (codes "节点 " ++ (node_id ++ codes " 当前状态无需重试"), refl))
  by_status true true e f = by_deps (unmet task.results node.deps) refl e f

  -- The task and the node are known. The node is run again if it may be; else nothing changes and the
  -- answer is an error.
  pub rerun_node_guards :
      Map.get id s.tasks ≡ some task
      → Map.get node_id task.defs ≡ some node
      → (MayRerun
          × (rerun_node ops executor now id node_id w s
              ≡ rerun_now ops executor now id node_id node task w s))
        ⊎ ((¬ MayRerun)
            × ((e : Text) × (rerun_node ops executor now id node_id w s ≡ (s, w, err e))))
  unfolding rerun_node
  rerun_node_guards e f = rw e (
      rw f (
        by_status (is_failed task.meta.status) (needs_rerun (status_at node_id task.results)) refl
          refl))
