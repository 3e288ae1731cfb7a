-- ===== src/Tasks/Execute/Recorded.antt =====
-- src/dag.rs: when no step fails, the result of each node that ended is a success.
use mathlib.Core.Bool.{false≢true}
use rdsctl.Base.{
  if◌then◌else◌, Bool-cases, All, Text, text_eq, text_eq_iff, ℕ, ◌≡◌, refl, sym, ap, subst, ◌∙◌,
  ◌⊎◌, inl, inr, Bool, true, false, Option, none, some, List, [], ◌∷◌, text_key,
}
use rdsctl.Base.Map
use rdsctl.Base.Map.{Map}
use rdsctl.Tasks.{NodeResult, TaskNode, Answer, ok, err}
use rdsctl.Tasks.Plan.{Env, Exec, plan_of, record_at}
use rdsctl.Tasks.Execute.{
  join_order, running_result, launch, is_ok, text_of, outcome_status, answer, settle_by, join_all,
  wave, is_success,
}
use rdsctl.Tasks.Execute.Edges.{HasDistinctIds}
use rdsctl.Tasks.Execute.Release.{IsReady}
use rdsctl.Tasks.Execute.Order.{was_joined, Holds}
use rdsctl.Tasks.Execute.Order.Keeps.{launched}
use rdsctl.Tasks.Execute.Completion.{GoesWell, settle_rest, joined_persist}
use rdsctl.Tasks.Execute.Success.{Good}

abbrev pub success_in : Option NodeResult → Bool
success_in none = false
success_in (some r) = is_success r.status

-- The result of the node is a success.
abbrev pub succeeded_in : Text → Map Text NodeResult → Bool
succeeded_in x m = success_in (Map.get x m)

-- The nodes that ended have a success as their result.
abbrev pub Recorded : Exec → Type 0
Recorded r = (x : Text) → was_joined x r.events ≡ true → succeeded_in x r.results ≡ true

recorded_other :
    (k x : Text) (v : NodeResult) (m : Map Text NodeResult)
    → text_eq k x ≡ false
    → succeeded_in x m ≡ true
    → succeeded_in x (Map.insert k v m) ≡ true
recorded_other k x v m e h = rw (Map.get-insert k x v m, e) h

launch-Recorded :
    (now : Text → ℕ) (ns : List TaskNode) (r : Exec)
    → All (λ n. was_joined n.id r.events ≡ false) ns
    → Recorded r
    → Recorded (launch now ns r)
unfolding launch
launch-Recorded now [] r a h = h
launch-Recorded now (n ∷ ns) r (j, a) h =
    launch-Recorded now ns (launched (now n.id) n r) a
      (λ x e. recorded_other n.id x (running_result (now n.id)) r.results (others x e) (h x e))
  where
    others : (x : Text) → was_joined x r.events ≡ true → text_eq n.id x ≡ false
    others x e = elim (Bool-cases (text_eq n.id x)) [
      | inr g ↦ g
      | inl g ↦ absurd (
          false≢true
            (sym j ∙ subst (λ y. was_joined y r.events ≡ true) (sym ((text_eq_iff n.id x).0 g)) e))
    ]

module _ (nodes : List TaskNode) (u : HasDistinctIds nodes) {World : Type 0} (env : Env World)
    (task instance_id : Text) (well : GoesWell env task instance_id (plan_of nodes)) where
  success_of : (o : Answer Text) → is_ok o ≡ true → is_success (outcome_status o) ≡ true
  success_of (ok t) e = refl
  success_of (err t) e = absurd (false≢true e)

  settle-Recorded :
      (k : ℕ) (n : TaskNode) (r : Exec)
      → Recorded r
      → Recorded (settle_by env task instance_id (plan_of nodes) k n none r)
  settle-Recorded k n r h x e =
      let a = answer env task instance_id (plan_of nodes) k n in
      let eq = settle_rest nodes u env task instance_id well k n r in
      ap (λ q. succeeded_in x q.2) eq
      ∙ by_id (Bool-cases (text_eq n.id x)) (
          sym (
            ap (λ q. was_joined x q.3) eq
            ∙ joined_persist nodes u env task instance_id well x n.id env.has_store (is_ok a.0)
                (Map.get n.id (plan_of nodes).node_by_id)
                (record_at (outcome_status a.0) (text_of a.0) a.1 (env.clock k n.id)) r.events)
          ∙ e)
    where
      result : NodeResult
      result =
          record_at (outcome_status (answer env task instance_id (plan_of nodes) k n).0)
            (text_of (answer env task instance_id (plan_of nodes) k n).0)
            (answer env task instance_id (plan_of nodes) k n).1 (env.clock k n.id)

      by_id :
          (text_eq n.id x ≡ true) ⊎ (text_eq n.id x ≡ false)
          → (if text_eq n.id x then true else was_joined x r.events) ≡ true
          → succeeded_in x (Map.insert n.id result r.results) ≡ true
      by_id (inl g) j =
          rw (Map.get-insert n.id x result r.results, g)
            (success_of (answer env task instance_id (plan_of nodes) k n).0 (well.all_ok k n))
      by_id (inr g) j = recorded_other n.id x result r.results g (h x (rw g at j))

  join_all-Recorded :
      (k : ℕ) (ns : List TaskNode) (r : Exec)
      → Recorded r
      → Recorded (join_all env task instance_id (plan_of nodes) k ns r)
  unfolding join_all
  join_all-Recorded k [] r h = h
  join_all-Recorded k (n ∷ ns) r h =
      join_all-Recorded k ns
        (settle_by env task instance_id (plan_of nodes) k n (env.panics k n.id) r)
        (subst (λ o. Recorded (settle_by env task instance_id (plan_of nodes) k n o r))
          (sym (well.no_panic k n.id)) (settle-Recorded k n r h))

  not_ended :
      (r : Exec) (ns : List TaskNode)
      → Holds nodes r
      → All (IsReady nodes r) ns
      → All (λ n. was_joined n.id r.events ≡ false) ns
  not_ended r [] h a = tt
  not_ended r (n ∷ ns) h ((f, w, z), a) = ((h.fresh n.id w).1, not_ended r ns h a)

  pub wave-Recorded :
      (k : ℕ) (r : Exec)
      → Good nodes u env task instance_id well r
      → Recorded r
      → Recorded (wave env task instance_id (plan_of nodes) k r)
  unfolding wave
  wave-Recorded k r g h =
      join_all-Recorded k (join_order (env.position k) r.ready)
        (record (launch (env.clock k) r.ready r) { ready = [] })
        (launch-Recorded (env.clock k) r.ready r (not_ended r r.ready g.holds g.counting.ready_ok)
          h)
