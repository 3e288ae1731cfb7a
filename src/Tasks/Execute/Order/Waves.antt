-- ===== src/Tasks/Execute/Order/Waves.antt =====
-- src/dag.rs: whatever happens outside, `execute` starts each node at most once, after all that it
-- depends on.
use rdsctl.Base.{
  ◌==◌, if◌then◌else◌, length, All, Text, text_eq, text_eq_refl, ℕ, zero, suc, ◌+◌, ◌≡◌, refl, sym,
  subst, ◌∙◌, Bool, true, false, ◌||◌, Option, none, some, List, [], ◌∷◌, arith, text_key,
}
use rdsctl.Base.Map
use rdsctl.Base.Map.{Map}
use rdsctl.Tasks.{TaskStatus, NodeResult, TaskNode, contains}
use rdsctl.Tasks.Cycle.{find_node}
use rdsctl.Tasks.Cycle.Laws.{contains-remove}
use rdsctl.Tasks.Plan.{joined, node_row, Env, Exec, or_empty, plan_of, persist, record_at}
use rdsctl.Tasks.Execute.{
  upstream_failed, skip_rest, join_order, launch, is_ok, text_of, outcome_status, persist_known,
  finished, answer, settle_by, join_all, wave, waves,
}
use rdsctl.Tasks.Execute.Edges.{HasDistinctIds}
use rdsctl.Tasks.Execute.Release.{rest_of-release, IsReady, Counting}
use rdsctl.Tasks.Execute.Joins.{All-join_order, distinct-join_order, All-others}
use rdsctl.Tasks.Execute.Order.{was_spawned, was_joined, InOrder, Holds, IsRunning}
use rdsctl.Tasks.Execute.Order.Keeps.{launched, launched-Inv, settle_by-Inv}

module _ (nodes : List TaskNode) (u : HasDistinctIds nodes) where
  keeps_IsRunning :
      (now : ℕ) (n m : TaskNode) (r : Exec)
      → IsRunning nodes r m
      → IsRunning nodes (launched now n r) m
  keeps_IsRunning now n m r (f, w, s, j) =
      (f, contains-remove n.id m.id r.waiting ∙ ground arith, ground arith, j)

  starts-IsRunning :
      (now : ℕ) (n : TaskNode) (r : Exec)
      → Holds nodes r
      → IsReady nodes r n
      → IsRunning nodes (launched now n r) n
  starts-IsRunning now n r h (f, w, z) = (
    f,
    contains-remove n.id n.id r.waiting ∙ rw (text_eq_refl n.id) refl,
    rw (text_eq_refl n.id) refl,
    (h.fresh n.id w).1,
  )

  IsRunning-launch :
      (now : Text → ℕ) (ns : List TaskNode) (m : TaskNode) (r : Exec)
      → IsRunning nodes r m
      → IsRunning nodes (launch now ns r) m
  unfolding launch
  IsRunning-launch now [] m r h = h
  IsRunning-launch now (n ∷ ns) m r h =
      IsRunning-launch now ns m (launched (now n.id) n r) (keeps_IsRunning (now n.id) n m r h)

  still-IsReady :
      (now : ℕ) (n m : TaskNode) (r : Exec)
      → text_eq n.id m.id ≡ false
      → IsReady nodes r m
      → IsReady nodes (launched now n r) m
  still-IsReady now n m r e (f, w, z) = (f, contains-remove n.id m.id r.waiting ∙ rw e w, z)

  -- All ready nodes are started.
  launch-Inv :
      (now : Text → ℕ) (ns : List TaskNode) (r : Exec)
      → Holds nodes r
      → r.any_failed ≡ false
      → All (IsReady nodes r) ns
      → HasDistinctIds ns
      → Holds nodes (launch now ns r) × All (IsRunning nodes (launch now ns r)) ns
  unfolding launch
  launch-Inv now [] r h g a d = (h, tt)
  launch-Inv now (n ∷ ns) r h g (i, a) (e, d) =
      let r' = launched (now n.id) n r in
      let rest =
        launch-Inv now ns r' (launched-Inv nodes (now n.id) n r h g i) g
          (All-others (IsReady nodes r) (IsReady nodes r') n.id ns
            (λ m. still-IsReady (now n.id) n m r) e a)
          d in
      (rest.0, (IsRunning-launch now ns n r' (starts-IsRunning (now n.id) n r h i), rest.1))

  pub left-launch :
      (now : Text → ℕ) (ns : List TaskNode) (r : Exec) → (launch now ns r).deps_left ≡ r.deps_left
  unfolding launch
  left-launch now [] r = refl
  left-launch now (n ∷ ns) r = left-launch now ns (launched (now n.id) n r)

  module _ {World : Type 0} (env : Env World) (task instance_id : Text) where
    abbrev settled : ℕ → TaskNode → Option Text → Exec → Exec
    settled = settle_by env task instance_id (plan_of nodes)

    -- The end of a node leaves the others running.
    runs_on :
        (k : ℕ) (n m : TaskNode) (o : Option Text) (r : Exec)
        → text_eq n.id m.id ≡ false
        → IsRunning nodes r m
        → IsRunning nodes (settled k n o r) m
    runs_on k n m (some e) r ne h = h
    runs_on k n m none r ne (f, w, s, j) =
        let a = answer env task instance_id (plan_of nodes) k n in
        let ds = or_empty (Map.get n.id (plan_of nodes).dependents) in
        let r1 = finished env.has_store (plan_of nodes) (env.clock k n.id) n.id a.0 a.1 r in
        subst
          (λ q.
            (find_node m.id nodes ≡ some m)
            × (contains m.id q.0 ≡ false)
            × (was_spawned m.id q.3 ≡ true)
            × (was_joined m.id q.3 ≡ false))
          (sym (rest_of-release nodes ds r1))
          (persisted (Map.get n.id (plan_of nodes).node_by_id) env.has_store
            (record_at (outcome_status a.0) (text_of a.0) a.1 (env.clock k n.id)) (is_ok a.0))
      where
        persisted :
            (o : Option TaskNode) (b : Bool) (result : NodeResult) (c : Bool)
            → (find_node m.id nodes ≡ some m)
              × (contains m.id r.waiting ≡ false)
              × (was_spawned m.id (persist_known b o result (joined n.id c ∷ r.events)) ≡ true)
              × (was_joined m.id (persist_known b o result (joined n.id c ∷ r.events)) ≡ false)
        persisted none b result c = (f, w, s, rw ne j)
        persisted (some q) true result c = (f, w, s, rw ne j)
        persisted (some q) false result c = (f, w, s, rw ne j)

    join_all-Inv :
        (k : ℕ) (ns : List TaskNode) (r : Exec)
        → Holds nodes r
        → Counting nodes r []
        → All (IsRunning nodes r) ns
        → HasDistinctIds ns
        → Holds nodes (join_all env task instance_id (plan_of nodes) k ns r)
          × Counting nodes (join_all env task instance_id (plan_of nodes) k ns r) []
    unfolding join_all
    join_all-Inv k [] r h c a d = (h, c)
    join_all-Inv k (n ∷ ns) r h c (i, a) (e, d) =
        let o = env.panics k n.id in
        let kept = settle_by-Inv nodes env task instance_id k n o r u h c i in
        join_all-Inv k ns (settled k n o r) kept.0 kept.1
          (All-others (IsRunning nodes r) (IsRunning nodes (settled k n o r)) n.id ns
            (λ m ne. runs_on k n m o r ne) e a)
          d

    pub wave-Inv :
        (k : ℕ) (r : Exec)
        → Holds nodes r
        → Counting nodes r []
        → r.any_failed ≡ false
        → Holds nodes (wave env task instance_id (plan_of nodes) k r)
          × Counting nodes (wave env task instance_id (plan_of nodes) k r) []
    unfolding wave
    wave-Inv k r h c g =
        let started = launch-Inv (env.clock k) r.ready r h g c.ready_ok c.distinct in
        let order = join_order (env.position k) r.ready in
        let r' = record (launch (env.clock k) r.ready r) { ready = [] } in
        join_all-Inv k order r' (same_Inv (launch (env.clock k) r.ready r) started.0)
          (record { ready_ok = tt; distinct = tt; enough = λ x b e. omega arith })
          (All-join_order (IsRunning nodes r') (env.position k) r.ready started.1)
          (distinct-join_order (env.position k) r.ready c.distinct)
      where
        same_Inv : (q : Exec) → Holds nodes q → Holds nodes (record q { ready = [] })
        same_Inv q h = h

    -- The rest that a failure skips.
    skip-InOrder :
        (b : Bool) (now : Text → ℕ) (ns : List TaskNode) (r : Exec)
        → InOrder r.events
        → InOrder (skip_rest b now ns r).events
    unfolding skip_rest
    skip-InOrder b now [] r h = h
    skip-InOrder b now (n ∷ ns) r h =
        skip-InOrder b now ns _ (skipped_one (contains n.id r.waiting) b)
      where
        skipped_one :
            (c b : Bool)
            → InOrder
                (if c
                  then record r {
                    waiting = Map.remove n.id r.waiting;
                    results =
                        Map.insert n.id
                          (record_at TaskStatus.skipped upstream_failed 0 (now n.id))
                          r.results;
                    events =
                        persist b
                          (node_row n (record_at TaskStatus.skipped upstream_failed 0 (now n.id)))
                          r.events;
                  }
                  else r).events
        skipped_one true true = h
        skipped_one true false = h
        skipped_one false c = h

    abbrev goes : ℕ → ℕ → Exec → Exec
    goes = waves env task instance_id (plan_of nodes)

    by_ends :
        (f k : ℕ) (r r' : Exec) (ends failed_now : Bool)
        → r'.any_failed ≡ failed_now
        → InOrder r.events
        → InOrder r'.events
        → (r'.any_failed ≡ false → InOrder (goes f (k + 1) r').events)
        → InOrder
            (if ends
              then r
              else if failed_now
              then skip_rest env.has_store (env.clock k) (plan_of nodes).nodes r'
              else goes f (k + 1) r').events
    by_ends f k r r' true b e h h' go = h
    by_ends f k r r' false true e h h' go =
        skip-InOrder env.has_store (env.clock k) (plan_of nodes).nodes r' h'
    by_ends f k r r' false false e h h' go = go e

    pub waves-InOrder :
        (f k : ℕ) (r : Exec)
        → Holds nodes r
        → Counting nodes r []
        → r.any_failed ≡ false
        → InOrder (goes f k r).events
    unfolding waves
    waves-InOrder zero k r h c g = h.in_order
    waves-InOrder (suc f) k r h c g =
        let r' = wave env task instance_id (plan_of nodes) k r in
        let kept = wave-Inv k r h c g in
        by_ends f k r r' (length r.ready == 0 || env.is_canceled k) r'.any_failed refl h.in_order
          kept.0.in_order (waves-InOrder f (k + 1) r' kept.0 kept.1)
