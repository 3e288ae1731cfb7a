-- ===== src/Tasks/Execute/Outcome.antt =====
-- src/dag.rs: the status that `execute` gives a task of which no step fails.
use mathlib.Core.Bool.{false≢true}
use rdsctl.Base.{
  ◌==◌, Bool-cases, is_some, unwrap_or, length, keep_if, All, Text, text_eq, text_eq_iff, ℕ, ◌+◌,
  ◌≡◌, refl, sym, ap, subst, ◌∙◌, inl, inr, Bool, true, false, none, some, List, [], ◌∷◌, arith,
  text_key,
}
use rdsctl.Base.Map
use rdsctl.Base.Map.{Map}
use rdsctl.Raft.Config.{mem}
use rdsctl.Tasks.{TaskStatus, TaskNode, TaskMeta, DagTask, contains, index}
use rdsctl.Tasks.Cycle.{find_node, deps_of, find_cycle}
use rdsctl.Tasks.Cycle.Laws.{free_in-bound, IsGrounded}
use rdsctl.Tasks.Cycle.Graph.{find_cycle_iff}
use rdsctl.Tasks.Plan.{Event, task_row, audited, Env, Exec, plan_of, persist}
use rdsctl.Tasks.Execute.{
  wave, no_deps_left, begin, final_status, end_of, run_graph, by_cycle, execute,
}
use rdsctl.Tasks.Execute.Edges.{HasDistinctIds, found_or, get-index}
use rdsctl.Tasks.Execute.Order.{was_joined, joined_ok}
use rdsctl.Tasks.Execute.Order.Start.{finds_self, begun, begun-Inv, begun-Counting}
use rdsctl.Tasks.Execute.Progress.{listed, some-listed}
use rdsctl.Tasks.Execute.Completion.{GoesWell, Fine}
use rdsctl.Tasks.Execute.Recorded.{succeeded_in, Recorded, wave-Recorded}
use rdsctl.Tasks.Execute.Success.{started, Good, Over, waves-Over, all_started}

All-map :
    (P Q : TaskNode → Type 0) (ns : List TaskNode)
    → ((n : TaskNode) → P n → Q n)
    → All P ns
    → All Q ns
All-map P Q [] f a = tt
All-map P Q (n ∷ ns) f (p, a) = (f n p, All-map P Q ns f a)

All-both :
    (P Q : TaskNode → Type 0) (ns : List TaskNode) → All P ns → All Q ns → All (λ n. P n × Q n) ns
All-both P Q [] a b = tt
All-both P Q (n ∷ ns) (p, a) (q, b) = ((p, q), All-both P Q ns a b)

keeps_joined :
    (x : Text) (b c : Bool) (m : TaskMeta) (t : List Event)
    → joined_ok x t ≡ true
    → joined_ok x (persist b (audited c) (persist b (task_row m) t)) ≡ true
keeps_joined x true c m t h = h
keeps_joined x false c m t h = h

known_dep :
    (nodes ns : List TaskNode) (d x : Text)
    → All (λ n. All (λ e. listed e nodes ≡ true) n.deps) ns
    → mem d (deps_of (find_node x ns)) ≡ true
    → listed d nodes ≡ true
unfolding find_node
known_dep nodes [] d x a m = absurd (false≢true m)
known_dep nodes (n ∷ ns) d x (p, a) m = elim (Bool-cases (text_eq n.id x)) [
  | inl e ↦ among n.deps p (rw e at m)
  | inr e ↦ known_dep nodes ns d x a (rw e at m)
]
  where
    among :
        (ds : List Text)
        → All (λ e. listed e nodes ≡ true) ds
        → mem d ds ≡ true
        → listed d nodes ≡ true
    among [] q i = absurd (false≢true i)
    among (y ∷ ds) (q, qs) i = elim (Bool-cases (text_eq y d)) [
      | inl e ↦ subst (λ z. listed z nodes ≡ true) ((text_eq_iff y d).0 e) q
      | inr e ↦ among ds qs (rw e at i)
    ]

listed-keep_if :
    (m : Map Text ℕ) (x : Text) (ns : List TaskNode)
    → listed x ns ≡ true
    → Map.get x m ≡ some 0
    → listed x (keep_if (no_deps_left m) ns) ≡ true
unfolding find_node
listed-keep_if m x [] l z = l
listed-keep_if m x (n ∷ ns) l z = elim (Bool-cases (text_eq n.id x)) [
  | inl e ↦
      rw
        (subst (λ y. (unwrap_or (Map.get y m) 0 == 0) ≡ true) (sym ((text_eq_iff n.id x).0 e))
          (ap (λ o. unwrap_or o 0 == 0) z))
        (rw e refl)
  | inr e ↦ ground (arith, listed-keep_if m x ns)
]

-- The node ended well, and its result says so.
abbrev pub RunsWell : DagTask × List Event → TaskNode → Type 0
RunsWell q n = (joined_ok n.id q.1 ≡ true) × (succeeded_in n.id q.0.results ≡ true)

module _ (nodes : List TaskNode) (u : HasDistinctIds nodes) {World : Type 0} (env : Env World)
    (task : DagTask) (well : GoesWell env task.id task.instance_id (plan_of nodes)) where
  pub all_wait : (x : Text) → listed x nodes ≡ true → contains x (begin nodes).waiting ≡ true
  unfolding begin contains
  all_wait x l = ap is_some (
      get-index (λ m. tt) x nodes [] u
      ∙ ap (λ q. found_or (λ m. tt) q none) (some-listed nodes u x l).1)

  begun-Fine :
      (t : DagTask) (m : TaskMeta)
      → Fine nodes u env task.id task.instance_id well [] (begun nodes u env t m)
  unfolding begun begin
  begun-Fine t m = (
    λ x l w z. listed-keep_if (index (λ n. length n.deps) nodes []) x nodes l z,
    λ x l w i. absurd (false≢true (sym w ∙ all_wait x l)),
    refl,
  )

  begun-Good :
      (t : DagTask) (m : TaskMeta)
      → Good nodes u env task.id task.instance_id well (begun nodes u env t m)
  begun-Good t m = record {
    holds = begun-Inv nodes u env t m;
    counting = begun-Counting nodes u env t m;
    fine = begun-Fine t m;
  }

  -- The run of the nodes of a task that is not cancelled and of which no step fails.
  module _ (Extra : Exec → Type 0)
      (kept : (k : ℕ) (r : Exec)
        → Good nodes u env task.id task.instance_id well r
        → Extra r
        → Extra (wave env task.id task.instance_id (plan_of nodes) k r))
      (t : DagTask) (m : TaskMeta) (x : Extra (begun nodes u env t m)) where
    pub run_graph-Over :
        Over nodes u env task.id task.instance_id well Extra kept
          (run_graph env task.id task.instance_id nodes (begun nodes u env t m))
    unfolding run_graph
    run_graph-Over =
        waves-Over nodes u env task.id task.instance_id well Extra kept (length nodes + 1) 0
          (begun nodes u env t m) (begun-Good t m) x
          (free_in-bound (started nodes u env task.id task.instance_id well (begun nodes u env t m))
            nodes)

  abbrev pub first_meta : ℕ → TaskMeta
  first_meta now = record task.meta { status = TaskStatus.running; started_at = some now }

  abbrev pub after_run : ℕ → Exec
  after_run now =
      run_graph env task.id task.instance_id nodes
        (begun nodes u env (record task { meta = first_meta now }) (first_meta now))

  pub run_of_execute :
      (start_time end_time : ℕ)
      → find_cycle nodes ≡ none
      → execute env start_time end_time task nodes
        ≡ end_of env end_time
            (record task { meta = first_meta start_time })
            (final_status (after_run start_time).any_failed env.canceled_at_end)
            (after_run start_time)
  unfolding execute begun
  run_of_execute start_time end_time e =
      ap (by_cycle env end_time (record task { meta = first_meta start_time }) nodes _) e

  pub success_status : (b c : Bool) → b ≡ false → c ≡ false → final_status b c ≡ TaskStatus.success
  success_status b c e f = ground arith

  begun-Recorded : (t : DagTask) (m : TaskMeta) → Recorded (begun nodes u env t m)
  unfolding begun
  begun-Recorded t m x e = absurd (false≢true (sym (none_ended env.has_store) ∙ e))
    where
      none_ended :
          (b : Bool)
          → was_joined x (persist b (task_row (record m { finished_at = none })) []) ≡ false
      none_ended true = refl
      none_ended false = refl

  -- The ids of the nodes differ, `find_cycle` reports none, each dependency is a node of the task, no
  -- step fails and nobody cancels the task. Then every node is run and ends well, the result of every
  -- node is a success, and the task is reported as a success.
  pub execute_completes :
      (start_time end_time : ℕ)
      → find_cycle nodes ≡ none
      → All (λ n. All (λ d. listed d nodes ≡ true) n.deps) nodes
      → ((execute env start_time end_time task nodes).0.meta.status ≡ TaskStatus.success)
        × All (RunsWell (execute env start_time end_time task nodes)) nodes
  unfolding find_node
  execute_completes start_time end_time acyclic close =
      subst (λ q. (q.0.meta.status ≡ TaskStatus.success) × All (RunsWell q) nodes)
        (sym (run_of_execute start_time end_time acyclic))
        (
          success_status (after_run start_time).any_failed env.canceled_at_end over.0.fine.2
              well.not_canceled_at_end,
          All-map (λ n. IsGrounded nodes n.id × (find_node n.id nodes ≡ some n))
              (RunsWell (
                end_of env end_time (record task { meta = first_meta start_time })
                  (final_status (after_run start_time).any_failed env.canceled_at_end)
                  (after_run start_time)))
              nodes ended
              (All-both (λ n. IsGrounded nodes n.id) (λ n. find_node n.id nodes ≡ some n) nodes
                ((find_cycle_iff nodes).1.0 acyclic) (finds_self nodes u)),
        )
    where
      over :
          Over nodes u env task.id task.instance_id well Recorded
            (wave-Recorded nodes u env task.id task.instance_id well)
            (after_run start_time)
      over =
          run_graph-Over Recorded (wave-Recorded nodes u env task.id task.instance_id well)
            (record task { meta = first_meta start_time }) (first_meta start_time)
            (begun-Recorded (record task { meta = first_meta start_time }) (first_meta start_time))

      has_ended :
          (n : TaskNode)
          → IsGrounded nodes n.id
          → find_node n.id nodes ≡ some n
          → was_joined n.id (after_run start_time).events ≡ true
      has_ended n a f =
          over.0.fine.1 n.id (ap is_some f)
            (all_started nodes u env task.id task.instance_id well (after_run start_time) n.id
              over.0 over.1 (λ d x. known_dep nodes nodes d x close) a (ap is_some f))
            refl

      ended :
          (n : TaskNode)
          → IsGrounded nodes n.id × (find_node n.id nodes ≡ some n)
          → RunsWell
              (end_of env end_time
                (record task { meta = first_meta start_time })
                (final_status (after_run start_time).any_failed env.canceled_at_end)
                (after_run start_time))
              n
      ended n (a, f) = (
        keeps_joined n.id env.has_store _ _ (after_run start_time).events
            (over.0.holds.succeeded over.0.fine.2 n.id (has_ended n a f)),
        over.2 n.id (has_ended n a f),
      )
