-- ===== src/Tasks/Execute/Completion.antt =====
-- src/dag.rs: when no step fails and nobody cancels, all nodes of an acyclic graph succeed.
use mathlib.Core.Bool.{false≢true}
use rdsctl.Base.{
  if◌then◌else◌, Bool-cases, Text, text_eq, ℕ, zero, suc, ◌≡◌, refl, sym, ap, subst, ◌∙◌, ◌⊎◌, inl,
  inr, Bool, true, false, Option, none, some, List, [], ◌∷◌, arith, text_key,
}
use rdsctl.Base.Map
use rdsctl.Base.Map.{Map}
use rdsctl.Tasks.{NodeResult, TaskNode, contains}
use rdsctl.Tasks.Cycle.{find_node}
use rdsctl.Tasks.Plan.{Event, joined, Env, Exec, Plan, or_empty, plan_of, record_at}
use rdsctl.Tasks.Execute.{
  insert_at, join_order, launch, is_ok, text_of, outcome_status, persist_known, finished, answer,
  settle_by, join_all, wave,
}
use rdsctl.Tasks.Execute.Edges.{HasDistinctIds}
use rdsctl.Tasks.Execute.Release.{rest_of, rest_of-release}
use rdsctl.Tasks.Execute.Order.{was_joined}
use rdsctl.Tasks.Execute.Order.Keeps.{launched}
use rdsctl.Tasks.Execute.Order.Waves.{left-launch}
use rdsctl.Tasks.Execute.Progress.{listed, waiting-launch, NoneForgotten, release-NoneForgotten}

listed-insert_at :
    (x : Text) (i : ℕ) (n : TaskNode) (ns : List TaskNode)
    → listed x (n ∷ ns) ≡ true
    → listed x (insert_at i n ns) ≡ true
unfolding insert_at find_node
listed-insert_at x i n [] h = h
listed-insert_at x zero n (m ∷ ns) h = h
listed-insert_at x (suc i) n (m ∷ ns) h = ground (arith, listed-insert_at x i n ns)

listed-join_order :
    (x : Text) (f : Text → ℕ) (ns : List TaskNode)
    → listed x ns ≡ true
    → listed x (join_order f ns) ≡ true
unfolding join_order find_node
listed-join_order x f [] h = h
listed-join_order x f (n ∷ ns) h =
    listed-insert_at x (f n.id) n (join_order f ns) (ground (arith, listed-join_order x f ns))

joined-launch :
    (now : Text → ℕ) (ns : List TaskNode) (x : Text) (r : Exec)
    → was_joined x (launch now ns r).events ≡ was_joined x r.events
unfolding launch
joined-launch now [] x r = refl
joined-launch now (n ∷ ns) x r = joined-launch now ns x (launched (now n.id) n r)

failed-launch :
    (now : Text → ℕ) (ns : List TaskNode) (r : Exec) → (launch now ns r).any_failed ≡ r.any_failed
unfolding launch
failed-launch now [] r = refl
failed-launch now (n ∷ ns) r = failed-launch now ns (launched (now n.id) n r)

-- A node that was started and is not running any more has ended.
abbrev pub Accounted : List TaskNode → List TaskNode → Exec → Type 0
Accounted nodes active r =
    (x : Text)
    → listed x nodes ≡ true
    → contains x r.waiting ≡ false
    → listed x active ≡ false
    → was_joined x r.events ≡ true

-- Nothing outside goes wrong, and nobody cancels the task.
pub record GoesWell {World : Type 0} (env : Env World) (task instance_id : Text) (p : Plan)
    : Type 0 where
  pub no_panic : (k : ℕ) (x : Text) → env.panics k x ≡ none
  pub all_ok : (k : ℕ) (n : TaskNode) → is_ok (answer env task instance_id p k n).0 ≡ true
  pub not_canceled : (k : ℕ) → env.is_canceled k ≡ false
  pub not_canceled_at_end : env.canceled_at_end ≡ false

module _ (nodes : List TaskNode) (u : HasDistinctIds nodes) {World : Type 0} (env : Env World)
    (task instance_id : Text) (well : GoesWell env task instance_id (plan_of nodes)) where
  abbrev pub joined_rest : (k : ℕ) (n : TaskNode) (r : Exec) → Exec
  joined_rest k n r =
      let a = answer env task instance_id (plan_of nodes) k n in
      finished env.has_store (plan_of nodes) (env.clock k n.id) n.id a.0 a.1 r

  pub settle_rest :
      (k : ℕ) (n : TaskNode) (r : Exec)
      → rest_of nodes (settle_by env task instance_id (plan_of nodes) k n none r)
        ≡ rest_of nodes (joined_rest k n r)
  settle_rest k n r =
      rest_of-release nodes (or_empty (Map.get n.id (plan_of nodes).dependents)) (joined_rest k n r)

  pub joined_persist :
      (x y : Text) (b c : Bool) (o : Option TaskNode) (result : NodeResult) (t : List Event)
      → was_joined x (persist_known b o result (joined y c ∷ t))
        ≡ (if text_eq y x then true else was_joined x t)
  joined_persist x y b c none result t = refl
  joined_persist x y true c (some n) result t = refl
  joined_persist x y false c (some n) result t = refl

  abbrev pub Fine : List TaskNode → Exec → Type 0
  Fine active r = NoneForgotten nodes u r × Accounted nodes active r × (r.any_failed ≡ false)

  settle-Fine :
      (k : ℕ) (n : TaskNode) (ns : List TaskNode) (r : Exec)
      → Fine (n ∷ ns) r
      → Fine ns (settle_by env task instance_id (plan_of nodes) k n none r)
  unfolding find_node
  settle-Fine k n ns r (f, acc, g) =
      let a = answer env task instance_id (plan_of nodes) k n in
      let eq = settle_rest k n r in
      (
        release-NoneForgotten nodes u (or_empty (Map.get n.id (plan_of nodes).dependents))
            (joined_rest k n r) f,
        λ x l w i.
            ap (λ q. was_joined x q.3) eq
            ∙ (joined_persist x n.id env.has_store (is_ok a.0)
                  (Map.get n.id (plan_of nodes).node_by_id)
                  (record_at (outcome_status a.0) (text_of a.0) a.1 (env.clock k n.id)) r.events
                ∙ by_id x (Bool-cases (text_eq n.id x)) l (ap (λ q. contains x q.0) (sym eq) ∙ w)
                    i),
        ap (λ q. q.1) eq ∙ rw (well.all_ok k n) g,
      )
    where
      by_id :
          (x : Text)
          → (text_eq n.id x ≡ true) ⊎ (text_eq n.id x ≡ false)
          → listed x nodes ≡ true
          → contains x r.waiting ≡ false
          → listed x ns ≡ false
          → (if text_eq n.id x then true else was_joined x r.events) ≡ true
      by_id x (inl e) l w i = rw e refl
      by_id x (inr e) l w i = rw e (acc x l w (ground arith))

  join_all-Fine :
      (k : ℕ) (ns : List TaskNode) (r : Exec)
      → Fine ns r
      → Fine [] (join_all env task instance_id (plan_of nodes) k ns r)
  unfolding join_all
  join_all-Fine k [] r h = h
  join_all-Fine k (n ∷ ns) r h =
      join_all-Fine k ns (settle_by env task instance_id (plan_of nodes) k n (env.panics k n.id) r)
        (subst (λ o. Fine ns (settle_by env task instance_id (plan_of nodes) k n o r))
          (sym (well.no_panic k n.id)) (settle-Fine k n ns r h))

  false_if : (b c : Bool) → (if b then false else c) ≡ true → (b ≡ false) × (c ≡ true)
  false_if true c e = absurd (false≢true e)
  false_if false c e = (refl, e)

  started-Fine :
      (k : ℕ) (r : Exec)
      → Fine [] r
      → Fine
          (join_order (env.position k) r.ready)
          (record (launch (env.clock k) r.ready r) { ready = [] })
  unfolding find_node
  started-Fine k r (f, acc, g) = (
    λ x l w z.
        let q =
          false_if (listed x r.ready) (contains x r.waiting)
            (sym (waiting-launch (env.clock k) r.ready x r) ∙ w) in
        absurd (
          false≢true (
            sym q.0
            ∙ f x l q.1 (ap (Map.get x) (sym (left-launch nodes u (env.clock k) r.ready r)) ∙ z))),
    λ x l w i.
        joined-launch (env.clock k) r.ready x r
        ∙ acc x l
            (not_started x (Bool-cases (listed x r.ready)) i
              (sym (waiting-launch (env.clock k) r.ready x r) ∙ w))
            refl,
    failed-launch (env.clock k) r.ready r ∙ g,
  )
    where
      not_started :
          (x : Text)
          → (listed x r.ready ≡ true) ⊎ (listed x r.ready ≡ false)
          → listed x (join_order (env.position k) r.ready) ≡ false
          → (if listed x r.ready then false else contains x r.waiting) ≡ false
          → contains x r.waiting ≡ false
      not_started x (inl e) i w =
          absurd (false≢true (sym i ∙ listed-join_order x (env.position k) r.ready e))
      not_started x (inr e) i w = rw e at w

  pub wave-Fine :
      (k : ℕ) (r : Exec) → Fine [] r → Fine [] (wave env task instance_id (plan_of nodes) k r)
  unfolding wave
  wave-Fine k r h =
      join_all-Fine k (join_order (env.position k) r.ready)
        (record (launch (env.clock k) r.ready r) { ready = [] }) (started-Fine k r h)
