-- ===== src/Tasks/Execute/Unknown.antt =====
-- src/dag.rs: what `execute` does with a dependency that is no node of the task.
use mathlib.Core.Bool.{false≢true}
use rdsctl.Base.{
  if◌then◌else◌, Bool-cases, All, Text, text_eq, text_eq_iff, ℕ, ◌+◌, ◌≡◌, sym, ap, subst, ◌∙◌, inl,
  inr, Bool, true, false, none, some, List, [], ◌∷◌, arith, text_key,
}
use rdsctl.Base.Map
use rdsctl.Base.Map.{Map}
use rdsctl.Raft.Config.{mem}
use rdsctl.Tasks.{TaskStatus, TaskNode, TaskMeta, DagTask, contains}
use rdsctl.Tasks.Cycle.{find_node, deps_of, find_cycle}
use rdsctl.Tasks.Cycle.Laws.{needs_node, Needs}
use rdsctl.Tasks.Plan.{Event, task_row, audited, Env, Exec, plan_of, persist}
use rdsctl.Tasks.Execute.{wave, begin, execute}
use rdsctl.Tasks.Execute.Edges.{HasDistinctIds}
use rdsctl.Tasks.Execute.Release.{IsReady}
use rdsctl.Tasks.Execute.Order.{was_spawned, was_joined, unjoined}
use rdsctl.Tasks.Execute.Order.Keeps.{some_inj}
use rdsctl.Tasks.Execute.Order.Start.{begun}
use rdsctl.Tasks.Execute.Progress.{listed, some-listed}
use rdsctl.Tasks.Execute.Completion.{GoesWell}
use rdsctl.Tasks.Execute.Success.{waiting-wave, Good, Over}
use rdsctl.Tasks.Execute.Outcome.{
  all_wait, run_graph-Over, first_meta, after_run, run_of_execute, success_status,
}

keeps_unspawned :
    (x : Text) (b c : Bool) (m : TaskMeta) (t : List Event)
    → was_spawned x t ≡ false
    → was_spawned x (persist b (audited c) (persist b (task_row m) t)) ≡ false
keeps_unspawned x true c m t h = h
keeps_unspawned x false c m t h = h

ready_left :
    (nodes : List TaskNode) (r : Exec) (x : Text) (ns : List TaskNode)
    → All (IsReady nodes r) ns
    → listed x ns ≡ true
    → Map.get x r.deps_left ≡ some 0
unfolding find_node
ready_left nodes r x [] a l = absurd (false≢true l)
ready_left nodes r x (n ∷ ns) ((f, w, z), a) l = elim (Bool-cases (text_eq n.id x)) [
  | inl e ↦ subst (λ y. Map.get y r.deps_left ≡ some 0) ((text_eq_iff n.id x).0 e) z
  | inr e ↦ ready_left nodes r x ns a (rw e at l)
]

module _ (nodes : List TaskNode) (u : HasDistinctIds nodes) {World : Type 0} (env : Env World)
    (task : DagTask) (well : GoesWell env task.id task.instance_id (plan_of nodes)) where
  -- The dependency that is no node of the task.
  dead_dep :
      (r : Exec) (x d : Text)
      → Good nodes u env task.id task.instance_id well r
      → Needs nodes d x
      → listed d nodes ≡ false
      → contains x r.waiting ≡ true
      → listed x r.ready ≡ false
  dead_dep r x d g need gone waits = elim (Bool-cases (listed x r.ready)) [
    | inr e ↦ e
    | inl e ↦
        let n = some-listed nodes u x (needs_node d (find_node x nodes) need) in
        absurd (
          false≢true (
            sym gone
            ∙ g.holds.known d (
                none_unjoined r.events n.0.deps d (ap (λ q. mem d (deps_of q)) (sym n.1) ∙ need) (
                  some_inj
                    (sym (g.holds.counted x n.0 n.1) ∙ ready_zero r.ready g.counting.ready_ok e)))))
  ]
    where
      none_unjoined :
          (t : List Event) (ds : List Text) (e : Text)
          → mem e ds ≡ true
          → unjoined t ds ≡ 0
          → was_joined e t ≡ true
      none_unjoined t [] e i z = absurd (cc)
      none_unjoined t (y ∷ ds) e i z = elim (Bool-cases (text_eq y e)) [
        | inl same ↦
            subst (λ v. was_joined v t ≡ true) ((text_eq_iff y e).0 same)
              (first_zero (was_joined y t) z)
        | inr other ↦ none_unjoined t ds e (rw other at i) (ground arith)
      ]
        where
          first_zero : (b : Bool) → (if b then 0 else 1) + unjoined t ds ≡ 0 → b ≡ true
          first_zero b e = ground arith

      ready_zero :
          (ns : List TaskNode)
          → All (IsReady nodes r) ns
          → listed x ns ≡ true
          → Map.get x r.deps_left ≡ some 0
      ready_zero ns a l = ready_left nodes r x ns a l

  -- The ids of the nodes differ, `find_cycle` reports none, no step fails and nobody cancels the task,
  -- but a node names a dependency that is no node of the task. Then the task is reported as a success,
  -- and this node was never started.
  pub execute_unknown_dep :
      (start_time end_time : ℕ) (x d : Text)
      → find_cycle nodes ≡ none
      → Needs nodes d x
      → listed d nodes ≡ false
      → ((execute env start_time end_time task nodes).0.meta.status ≡ TaskStatus.success)
        × (was_spawned x (execute env start_time end_time task nodes).1 ≡ false)
  execute_unknown_dep start_time end_time x d acyclic need gone =
      subst (λ q. (q.0.meta.status ≡ TaskStatus.success) × (was_spawned x q.1 ≡ false))
        (sym (run_of_execute nodes u env task well start_time end_time acyclic))
        (
          success_status nodes u env task well
              (after_run nodes u env task well start_time).any_failed env.canceled_at_end
              over.0.fine.2 well.not_canceled_at_end,
          keeps_unspawned x env.has_store _ _ (after_run nodes u env task well start_time).events
              (over.0.holds.fresh x over.2).0,
        )
    where
      still_waits :
          (k : ℕ) (r : Exec)
          → Good nodes u env task.id task.instance_id well r
          → contains x r.waiting ≡ true
          → contains x (wave env task.id task.instance_id (plan_of nodes) k r).waiting ≡ true
      still_waits k r g w =
          waiting-wave nodes u env task.id task.instance_id well k x r
          ∙ (ap (λ b. if b then false else contains x r.waiting) (dead_dep r x d g need gone w) ∙ w)

      starts_waiting :
          contains x (begin nodes).waiting ≡ true
          → contains x
              (begun nodes u env
                (record task { meta = first_meta nodes u env task well start_time })
                (first_meta nodes u env task well start_time)).waiting
            ≡ true
      starts_waiting h = unfold begun in h

      over :
          Over nodes u env task.id task.instance_id well
            (λ r. contains x r.waiting ≡ true)
            still_waits
            (after_run nodes u env task well start_time)
      over =
          run_graph-Over nodes u env task well (λ r. contains x r.waiting ≡ true) still_waits
            (record task { meta = first_meta nodes u env task well start_time })
            (first_meta nodes u env task well start_time)
            (starts_waiting
              (all_wait nodes u env task well x (needs_node d (find_node x nodes) need)))
