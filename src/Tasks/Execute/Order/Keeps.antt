-- ===== src/Tasks/Execute/Order/Keeps.antt =====
-- src/dag.rs: the start of a node and its end keep what `execute` knows.
use mathlib.Core.Bool.{false≢true}
use rdsctl.Base.{
  if◌then◌else◌, Bool-cases, Option-cases, is_some, Text, text_eq, text_eq_iff, ℕ, ◌-◌, ◌≤◌, ◌≡◌,
  refl, sym, ap, subst, ◌∙◌, inl, inr, Bool, true, false, ◌&&◌, Option, none, some, List, [], ◌∷◌,
  arith, text_key,
}
use rdsctl.Base.Map
use rdsctl.Base.Map.{Map}
use rdsctl.Tasks.{NodeResult, TaskNode, IdSet, contains}
use rdsctl.Tasks.Cycle.{find_node}
use rdsctl.Tasks.Cycle.Laws.{contains-remove}
use rdsctl.Tasks.Plan.{Event, spawned, joined, Env, Exec, or_empty, plan_of, record_at, release}
use rdsctl.Tasks.Execute.{
  running_result, is_ok, text_of, outcome_status, persist_known, finished, answer, settle_by,
}
use rdsctl.Tasks.Execute.Edges.{count, HasDistinctIds, count-dependents}
use rdsctl.Tasks.Execute.Release.{
  less, rest_of-release, deps_left-release, IsReady, Counting, Counting-release,
}
use rdsctl.Tasks.Execute.Order.{
  was_spawned, was_joined, joined_ok, unjoined, count-le-unjoined, unjoined-joined, All-ended, Inv,
  Holds, IsRunning,
}

abbrev pub launched : ℕ → TaskNode → Exec → Exec
launched now n r = record r {
  waiting = Map.remove n.id r.waiting;
  results = Map.insert n.id (running_result now) r.results;
  events = spawned n ∷ r.events;
}

still_waits :
    (k x : Text) (s : IdSet)
    → contains x (Map.remove k s) ≡ true
    → (text_eq k x ≡ false) × (contains x s ≡ true)
still_waits k x s h = elim (Bool-cases (text_eq k x)) [
  | inl e ↦ absurd (false≢true (rw (contains-remove k x s, e) at h))
  | inr e ↦ (e, rw (contains-remove k x s, e) at h)
]

pub some_inj : {a b : ℕ} → some a ≡ some b → a ≡ b
some_inj h = cc

module _ (nodes : List TaskNode) where
  pub launched-Inv :
      (now : ℕ) (n : TaskNode) (r : Exec)
      → Holds nodes r
      → r.any_failed ≡ false
      → IsReady nodes r n
      → Holds nodes (launched now n r)
  launched-Inv now n r h ok_so_far (f, w, z) = record {
    counted = h.counted;
    unknown = h.unknown;
    fresh = λ x e.
        (let q = still_waits n.id x r.waiting e in (rw q.0 (h.fresh x q.1).0, (h.fresh x q.1).1));
    known = h.known;
    succeeded = h.succeeded;
    in_order = (
      All-ended r.events n.deps (h.succeeded ok_so_far) (some_inj (sym (h.counted n.id n f) ∙ z)),
      (h.fresh n.id w).0,
      h.in_order,
    );
  }

  -- The record of a node that ended, without the nodes that it makes ready.
  pub joined-Inv :
      (x : Text) (b : Bool) (left : Map Text ℕ) (r : Exec) (n : TaskNode)
      → Holds nodes r
      → find_node x nodes ≡ some n
      → contains x r.waiting ≡ false
      → was_spawned x r.events ≡ true
      → was_joined x r.events ≡ false
      → ((y : Text)
          → Map.get y left
            ≡ less
                (count y (or_empty (Map.get x (plan_of nodes).dependents)))
                (Map.get y r.deps_left))
      → HasDistinctIds nodes
      → Inv nodes left r.waiting (if b then r.any_failed else true) (joined x b ∷ r.events)
  joined-Inv x b left r n h f w s j eq u = record {
    counted = λ y m e.
        (eq y
          ∙ (ap (less (count y (or_empty (Map.get x (plan_of nodes).dependents)))) (h.counted y m e)
              ∙ ap some (
                  ap (λ (k : ℕ). unjoined r.events m.deps - k) (count-dependents y x nodes m u e)
                  ∙ sym (unjoined-joined x b r.events m.deps j))));
    unknown = λ y e.
        eq y
        ∙ ap (less (count y (or_empty (Map.get x (plan_of nodes).dependents)))) (h.unknown y e);
    fresh = λ y e. ((h.fresh y e).0, other y e);
    known = λ y e. is_known y e;
    succeeded = λ g y e. ended_well y b g e;
    in_order = (s, j, h.in_order);
  }
    where
      other :
          (y : Text)
          → contains y r.waiting ≡ true
          → (if text_eq x y then true else was_joined y r.events) ≡ false
      other y e = elim (Bool-cases (text_eq x y)) [
        | inl same ↦ absurd (
            false≢true
              (sym w ∙ subst (λ v. contains v r.waiting ≡ true) (sym ((text_eq_iff x y).0 same)) e))
        | inr no_same ↦ rw no_same (h.fresh y e).1
      ]

      is_known :
          (y : Text)
          → (if text_eq x y then true else was_joined y r.events) ≡ true
          → is_some (find_node y nodes) ≡ true
      is_known y e = elim (Bool-cases (text_eq x y)) [
        | inl same ↦
            ap is_some (subst (λ v. find_node v nodes ≡ some n) ((text_eq_iff x y).0 same) f)
        | inr no_same ↦ h.known y (rw no_same at e)
      ]

      ended_well :
          (y : Text) (c : Bool)
          → (if c then r.any_failed else true) ≡ false
          → (if text_eq x y then true else was_joined y r.events) ≡ true
          → (if text_eq x y && c then true else joined_ok y r.events) ≡ true
      ended_well y true g e = elim (Bool-cases (text_eq x y)) [
        | inl same ↦ rw same refl
        | inr no_same ↦ rw no_same (h.succeeded g y (rw no_same at e))
      ]
      ended_well y false g e = absurd (false≢true (sym g))

  persist-Inv :
      (stored : Bool) (o : Option TaskNode) (result : NodeResult) (left : Map Text ℕ) (w : IdSet)
      (b : Bool) (t : List Event)
      → Inv nodes left w b t
      → Inv nodes left w b (persist_known stored o result t)
  persist-Inv stored none result left w b t h = h
  persist-Inv false (some n) result left w b t h = h
  persist-Inv true (some n) result left w b t h = record {
    counted = h.counted;
    unknown = h.unknown;
    fresh = h.fresh;
    known = h.known;
    succeeded = h.succeeded;
    in_order = h.in_order;
  }

  -- The counters suffice for the end of a node that had not ended.
  enough_for :
      (x : Text) (r : Exec)
      → Holds nodes r
      → was_joined x r.events ≡ false
      → HasDistinctIds nodes
      → (y : Text) (c : ℕ) → Map.get y r.deps_left ≡ some c
      → count y (or_empty (Map.get x (plan_of nodes).dependents)) ≤ c
  enough_for x r h j u y c e = elim (Option-cases (find_node y nodes)) [
    | inl unknown_id ↦ absurd (none_some (sym (h.unknown y unknown_id) ∙ e))
    | inr (m, f) ↦ omega (
      arith,
      count-dependents y x nodes m u f,
      count-le-unjoined x r.events m.deps j,
      some_inj (sym (h.counted y m f) ∙ e),
    )
  ]
    where
      none_some : {a : ℕ} → ◌≡◌ {A = Option ℕ} none (some a) → ⊥
      none_some e = cc

  module _ {World : Type 0} (env : Env World) (task instance_id : Text) where
    pub settle_by-Inv :
        (k : ℕ) (n : TaskNode) (o : Option Text) (r : Exec)
        → HasDistinctIds nodes
        → Holds nodes r
        → Counting nodes r []
        → IsRunning nodes r n
        → Holds nodes (settle_by env task instance_id (plan_of nodes) k n o r)
          × Counting nodes (settle_by env task instance_id (plan_of nodes) k n o r) []
    settle_by-Inv k n (some e) r u h c run = (
      record {
        counted = h.counted;
        unknown = h.unknown;
        fresh = h.fresh;
        known = h.known;
        succeeded = λ g. absurd (false≢true (sym g));
        in_order = h.in_order;
      },
      record { ready_ok = c.ready_ok; distinct = c.distinct; enough = c.enough },
    )
    settle_by-Inv k n none r u h c (f, w, s, j) =
        let a = answer env task instance_id (plan_of nodes) k n in
        let ds = or_empty (Map.get n.id (plan_of nodes).dependents) in
        let r1 = finished env.has_store (plan_of nodes) (env.clock k n.id) n.id a.0 a.1 r in
        (
          subst (λ q. Inv nodes (release (plan_of nodes) ds r1).deps_left q.0 q.1 q.3)
              (sym (rest_of-release nodes ds r1))
              (persist-Inv env.has_store (Map.get n.id (plan_of nodes).node_by_id)
                (record_at (outcome_status a.0) (text_of a.0) a.1 (env.clock k n.id))
                (release (plan_of nodes) ds r1).deps_left r.waiting
                (if is_ok a.0 then r.any_failed else true) (joined n.id (is_ok a.0) ∷ r.events)
                (joined-Inv n.id (is_ok a.0) (release (plan_of nodes) ds r1).deps_left r n h f w s j
                  (λ y. deps_left-release nodes ds y r1) u)),
          Counting-release nodes ds r1 u (record {
            ready_ok = c.ready_ok;
            distinct = c.distinct;
            enough = enough_for n.id r h j u;
          }),
        )
