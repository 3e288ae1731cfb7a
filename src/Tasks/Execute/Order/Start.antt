-- ===== src/Tasks/Execute/Order/Start.antt =====
-- src/dag.rs: `execute` from its first line to its last, in the order of its events.
use mathlib.Core.Bool.{false≢true}
use rdsctl.Base.{
  ◌==◌, ==_iff, Bool-cases, is_some, length, keep_if, All, Text, text_eq_refl, ℕ, ◌+◌, ◌≡◌, refl,
  sym, ap, ◌∙◌, inl, inr, Bool, true, false, Option, none, some, List, [], ◌∷◌, arith,
}
use rdsctl.Base.Map.{Map}
use rdsctl.Tasks.{TaskStatus, TaskNode, TaskMeta, DagTask, contains, index}
use rdsctl.Tasks.Cycle.{find_node, find_cycle}
use rdsctl.Tasks.Plan.{Event, task_row, Env, Exec, persist}
use rdsctl.Tasks.Execute.{
  no_deps_left, begin, mark_cycle, finish_task, final_status, run_graph, by_cycle, execute,
}
use rdsctl.Tasks.Execute.Edges.{HasDistinctIds, found_or, get-index}
use rdsctl.Tasks.Execute.Release.{IsReady, Counting}
use rdsctl.Tasks.Execute.Joins.{All-others}
use rdsctl.Tasks.Execute.Order.{was_spawned, was_joined, InOrder, unjoined, Inv, Holds}
use rdsctl.Tasks.Execute.Order.Waves.{waves-InOrder}

pub finds_self : (ns : List TaskNode) → HasDistinctIds ns → All (λ n. find_node n.id ns ≡ some n) ns
unfolding find_node
finds_self [] d = tt
finds_self (m ∷ ns) (e, d) = (
  rw (text_eq_refl m.id) refl,
  All-others (λ n. find_node n.id ns ≡ some n) (λ n. find_node n.id (m ∷ ns) ≡ some n) m.id ns
      (λ n ne h. rw ne h) e (finds_self ns d),
)

All-keep_if :
    (P Q : TaskNode → Type 0) (test : TaskNode → Bool) (ns : List TaskNode)
    → ((n : TaskNode) → P n → test n ≡ true → Q n)
    → All P ns
    → All Q (keep_if test ns)
All-keep_if P Q test [] f a = tt
All-keep_if P Q test (n ∷ ns) f (p, a) = elim (Bool-cases (test n)) [
  | inl e ↦ rw e (f n p e, All-keep_if P Q test ns f a)
  | inr e ↦ rw e (All-keep_if P Q test ns f a)
]

find-keep_if :
    (x : Text) (test : TaskNode → Bool) (ns : List TaskNode)
    → find_node x ns ≡ none
    → find_node x (keep_if test ns) ≡ none
unfolding find_node
find-keep_if x test [] h = refl
find-keep_if x test (n ∷ ns) h = ground (arith, find-keep_if x test ns)

distinct-keep_if :
    (test : TaskNode → Bool) (ns : List TaskNode)
    → HasDistinctIds ns
    → HasDistinctIds (keep_if test ns)
distinct-keep_if test [] d = tt
distinct-keep_if test (n ∷ ns) (e, d) = elim (Bool-cases (test n)) [
  | inl h ↦ rw h (find-keep_if n.id test ns e, distinct-keep_if test ns d)
  | inr h ↦ rw h (distinct-keep_if test ns d)
]

all_left :
    (t : List Event) (ds : List Text)
    → ((x : Text) → was_joined x t ≡ false)
    → unjoined t ds ≡ length ds
all_left t [] h = refl
all_left t (d ∷ ds) h = rw (h d) (omega (arith, all_left t ds h))

module _ (nodes : List TaskNode) (u : HasDistinctIds nodes) where
  left : Map Text ℕ
  left = index (λ n. length n.deps) nodes []

  begin-Inv :
      (t : List Event)
      → ((x : Text) → was_joined x t ≡ false)
      → ((x : Text) → was_spawned x t ≡ false)
      → InOrder t
      → Inv nodes (begin nodes).deps_left (begin nodes).waiting false t
  unfolding begin
  begin-Inv t j s o = record {
    counted = λ x n e.
        get-index (λ m. length m.deps) x nodes [] u
        ∙ (ap (λ q. found_or (λ m. length m.deps) q none) e ∙ ap some (sym (all_left t n.deps j)));
    unknown = λ x e.
        get-index (λ m. length m.deps) x nodes [] u
        ∙ ap (λ q. found_or (λ m. length m.deps) q none) e;
    fresh = λ x e. (s x, j x);
    known = λ x e. absurd (false≢true (sym (j x) ∙ e));
    succeeded = λ g x e. absurd (false≢true (sym (j x) ∙ e));
    in_order = o;
  }

  zero_length : (n : TaskNode) → (length n.deps == 0) ≡ true → some (length n.deps) ≡ some 0
  zero_length n h = ap some ((==_iff (length n.deps) 0).0 h)

  IsReady-at_start :
      (n : TaskNode)
      → find_node n.id nodes ≡ some n
      → no_deps_left (begin nodes).deps_left n ≡ true
      → IsReady nodes (begin nodes) n
  unfolding begin contains
  IsReady-at_start n f z =
      let e =
        get-index (λ m. length m.deps) n.id nodes [] u
        ∙ ap (λ q. found_or (λ m. length m.deps) q none) f in
      (
        f,
        ap is_some (get-index (λ m. tt) n.id nodes [] u ∙ ap (λ q. found_or (λ m. tt) q none) f),
        e ∙ zero_length n (rw e at z),
      )

  pub begin-Counting : Counting nodes (begin nodes) []
  begin-Counting = record {
    ready_ok = all_ready (
        All-keep_if (λ n. find_node n.id nodes ≡ some n) (IsReady nodes (begin nodes))
          (no_deps_left (begin nodes).deps_left) nodes IsReady-at_start (finds_self nodes u));
    distinct = distinct_ready (distinct-keep_if (no_deps_left (begin nodes).deps_left) nodes u);
    enough = λ x c e. omega arith;
  }
    where
      all_ready :
          All (IsReady nodes (begin nodes)) (keep_if (no_deps_left (begin nodes).deps_left) nodes)
          → All (IsReady nodes (begin nodes)) (begin nodes).ready
      all_ready h = unfold begin in h

      distinct_ready :
          HasDistinctIds (keep_if (no_deps_left (begin nodes).deps_left) nodes)
          → HasDistinctIds (begin nodes).ready
      distinct_ready h = unfold begin in h

  module _ {World : Type 0} (env : Env World) where
    mark_cycle-InOrder :
        (b : Bool) (now : Text → ℕ) (c : Text) (ns : List TaskNode) (r : Exec)
        → InOrder r.events
        → InOrder (mark_cycle b now c ns r).events
    unfolding mark_cycle
    mark_cycle-InOrder b now c [] r h = h
    mark_cycle-InOrder true now c (n ∷ ns) r h = mark_cycle-InOrder true now c ns _ h
    mark_cycle-InOrder false now c (n ∷ ns) r h = mark_cycle-InOrder false now c ns _ h

    finish-InOrder :
        (b : Bool) (now : ℕ) (s : TaskStatus) (task : DagTask) (es : List Event)
        → InOrder es
        → InOrder (finish_task b now s task es).1
    finish-InOrder true now s task es h = h
    finish-InOrder false now s task es h = h

    first_events : Bool → TaskMeta → List Event
    first_events b m = persist b (task_row m) []

    unfoldable pub begun : DagTask → TaskMeta → Exec
    begun task m = record (begin nodes) {
      results = task.results;
      events = persist env.has_store (task_row (record m { finished_at = none })) [];
    }

    pub begun-Inv : (task : DagTask) (m : TaskMeta) → Holds nodes (begun task m)
    unfolding begun begin
    begun-Inv task m = by_store env.has_store
      where
        by_store :
            (b : Bool)
            → Inv nodes
                (begin nodes).deps_left
                (begin nodes).waiting
                false
                (persist b (task_row (record m { finished_at = none })) [])
        by_store true = begin-Inv _ (λ x. refl) (λ x. refl) tt
        by_store false = begin-Inv _ (λ x. refl) (λ x. refl) tt

    pub begun-Counting : (task : DagTask) (m : TaskMeta) → Counting nodes (begun task m) []
    unfolding begun
    begun-Counting task m =
        let k = begin-Counting in
        record { ready_ok = k.ready_ok; distinct = k.distinct; enough = k.enough }

    run_graph-InOrder :
        (task instance_id : Text) (r : Exec)
        → Holds nodes r
        → Counting nodes r []
        → r.any_failed ≡ false
        → InOrder (run_graph env task instance_id nodes r).events
    unfolding run_graph
    run_graph-InOrder task instance_id r h c g =
        waves-InOrder nodes u env task instance_id (length nodes + 1) 0 r h c g

    by_cycle-InOrder :
        (end_time : ℕ) (task : DagTask) (r : Exec) (o : Option Text)
        → Holds nodes r
        → Counting nodes r []
        → r.any_failed ≡ false
        → InOrder (by_cycle env end_time task nodes r o).1
    by_cycle-InOrder end_time task r none h c g =
        let r' = run_graph env task.id task.instance_id nodes r in
        finish-InOrder env.has_store end_time (final_status r'.any_failed env.canceled_at_end)
          (record task { results = r'.results }) r'.events
          (run_graph-InOrder task.id task.instance_id r h c g)
    by_cycle-InOrder end_time task r (some x) h c g =
        let r' = mark_cycle env.has_store (env.clock 0) x nodes r in
        finish-InOrder env.has_store end_time TaskStatus.failed
          (record task { results = r'.results }) r'.events
          (mark_cycle-InOrder env.has_store (env.clock 0) x nodes r h.in_order)

    -- The ids of the nodes differ. Whatever the steps answer, in whatever order the nodes of a wave
    -- end, and whenever the task is cancelled: a node starts at most once and only after each of its
    -- dependencies ended well, and it ends at most once and only after it was started.
    pub execute-InOrder :
        (start_time end_time : ℕ) (task : DagTask)
        → InOrder (execute env start_time end_time task nodes).1
    unfolding execute begun
    execute-InOrder start_time end_time task =
        let m = record task.meta { status = TaskStatus.running; started_at = some start_time } in
        by_cycle-InOrder end_time (record task { meta = m }) (begun task m) (find_cycle nodes)
          (begun-Inv task m) (begun-Counting task m) (ready_fails (begun task m) refl)
      where
        ready_fails :
            (r : Exec)
            → r
              ≡ begun task
                  (record task.meta { status = TaskStatus.running; started_at = some start_time })
            → r.any_failed ≡ false
        ready_fails r e = ap (λ (q : Exec). q.any_failed) e
