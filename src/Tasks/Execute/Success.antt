-- ===== src/Tasks/Execute/Success.antt =====
-- src/dag.rs: the loop of `execute` ends by its own test, and then all nodes have succeeded.
use mathlib.Core.Bool.{false≢true}
use mathlib.Core.WellFounded.{Acc}
use rdsctl.Base.{
  ◌==◌, if◌then◌else◌, Bool-cases, is_some, length, All, Text, text_eq_iff, text_eq_refl, ℕ, zero,
  suc, ◌+◌, ◌<◌, ◌≡◌, refl, sym, ap, ◌∙◌, inl, inr, Bool, true, false, ◌||◌, not, Option, none,
  some, List, [], ◌∷◌, arith,
}
use rdsctl.Raft.Config.{mem}
use rdsctl.Tasks.{TaskNode, contains}
use rdsctl.Tasks.Cycle.{find_node, deps_of}
use rdsctl.Tasks.Cycle.Laws.{free_in, free_in-falls, Needs, IsGrounded}
use rdsctl.Tasks.Plan.{Event, Env, Exec, plan_of}
use rdsctl.Tasks.Execute.{skip_rest, join_order, launch, settle_by, join_all, wave, waves}
use rdsctl.Tasks.Execute.Edges.{HasDistinctIds}
use rdsctl.Tasks.Execute.Release.{IsReady, Counting}
use rdsctl.Tasks.Execute.Order.{was_joined, unjoined, Holds}
use rdsctl.Tasks.Execute.Order.Waves.{wave-Inv}
use rdsctl.Tasks.Execute.Progress.{listed, waiting-launch, some-listed}
use rdsctl.Tasks.Execute.Completion.{GoesWell, settle_rest, Fine, wave-Fine}

module _ (nodes : List TaskNode) (u : HasDistinctIds nodes) {World : Type 0} (env : Env World)
    (task instance_id : Text) (well : GoesWell env task instance_id (plan_of nodes)) where
  waiting-settle :
      (k : ℕ) (n : TaskNode) (o : Option Text) (r : Exec)
      → (settle_by env task instance_id (plan_of nodes) k n o r).waiting ≡ r.waiting
  waiting-settle k n none r = ap (λ q. q.0) (settle_rest nodes u env task instance_id well k n r)
  waiting-settle k n (some e) r = refl

  waiting-join_all :
      (k : ℕ) (ns : List TaskNode) (r : Exec)
      → (join_all env task instance_id (plan_of nodes) k ns r).waiting ≡ r.waiting
  unfolding join_all
  waiting-join_all k [] r = refl
  waiting-join_all k (n ∷ ns) r =
      waiting-join_all k ns
        (settle_by env task instance_id (plan_of nodes) k n (env.panics k n.id) r)
      ∙ waiting-settle k n (env.panics k n.id) r

  pub waiting-wave :
      (k : ℕ) (x : Text) (r : Exec)
      → contains x (wave env task instance_id (plan_of nodes) k r).waiting
        ≡ (if listed x r.ready then false else contains x r.waiting)
  unfolding wave
  waiting-wave k x r =
      ap (contains x) (
        waiting-join_all k (join_order (env.position k) r.ready)
          (record (launch (env.clock k) r.ready r) { ready = [] }))
      ∙ waiting-launch (env.clock k) r.ready x r

  abbrev pub started : Exec → Text → Bool
  started r v = not (contains v r.waiting)

  first-IsReady :
      (r : Exec) (ns : List TaskNode)
      → All (IsReady nodes r) ns
      → (length ns == 0) ≡ false
      → (n : TaskNode) × IsReady nodes r n × (listed n.id ns ≡ true)
  unfolding find_node
  first-IsReady r [] a e = absurd cc
  first-IsReady r (n ∷ ns) (i, a) e = (n, i, rw (text_eq_refl n.id) refl)

  -- Each wave starts a node that waited.
  measure-wave :
      (k : ℕ) (r : Exec)
      → All (IsReady nodes r) r.ready
      → (length r.ready == 0) ≡ false
      → free_in (started (wave env task instance_id (plan_of nodes) k r)) nodes
        < free_in (started r) nodes
  measure-wave k r a e =
      let n = first-IsReady r r.ready a e in
      free_in-falls (started r) (started (wave env task instance_id (plan_of nodes) k r)) stays
        n.0.id nodes (ap not n.1.1)
        (ap not
          (waiting-wave k n.0.id r ∙ ap (λ b. if b then false else contains n.0.id r.waiting) n.2))
        (ap is_some n.1.0)
    where
      stays :
          (v : Text)
          → started r v ≡ true
          → started (wave env task instance_id (plan_of nodes) k r) v ≡ true
      stays v h = ap not (waiting-wave k v r) ∙ drop_one (listed v r.ready) (contains v r.waiting) h
        where
          drop_one : (b c : Bool) → not c ≡ true → not (if b then false else c) ≡ true
          drop_one true c h = refl
          drop_one false c h = h

  pub record Good (r : Exec) : Type 0 where
    pub holds : Holds nodes r
    pub counting : Counting nodes r []
    pub fine : Fine nodes u env task instance_id well [] r

  wave-Good : (k : ℕ) (r : Exec) → Good r → Good (wave env task instance_id (plan_of nodes) k r)
  wave-Good k r h =
      let kept = wave-Inv nodes u env task instance_id k r h.holds h.counting h.fine.2 in
      record {
        holds = kept.0;
        counting = kept.1;
        fine = wave-Fine nodes u env task instance_id well k r h.fine;
      }

  -- What the loop leaves: nothing is ready, and what each wave keeps holds still.
  module _ (Extra : Exec → Type 0)
      (kept : (k : ℕ) (r : Exec)
        → Good r
        → Extra r
        → Extra (wave env task instance_id (plan_of nodes) k r)) where
    abbrev pub Over : Exec → Type 0
    Over r = Good r × ((length r.ready == 0) ≡ true) × Extra r

    next_round :
        (f k : ℕ) (r r' : Exec) (b c : Bool)
        → (length r.ready == 0) ≡ b
        → env.is_canceled k ≡ false
        → c ≡ false
        → Good r
        → Extra r
        → (b ≡ false → Over (waves env task instance_id (plan_of nodes) f (k + 1) r'))
        → Over (
            if b || env.is_canceled k
            then r
            else if c
            then skip_rest env.has_store (env.clock k) nodes r'
            else waves env task instance_id (plan_of nodes) f (k + 1) r')
    next_round f k r r' true c e n g h x go = (h, e, x)
    next_round f k r r' false true e n g h x go = absurd (false≢true (sym g))
    next_round f k r r' false false e n g h x go = rw n (go refl)

    -- The rounds that it is given are enough.
    pub waves-Over :
        (f k : ℕ) (r : Exec)
        → Good r
        → Extra r
        → free_in (started r) nodes < f
        → Over (waves env task instance_id (plan_of nodes) f k r)
    unfolding waves plan_of
    waves-Over zero k r h x m = absurd (omega arith)
    waves-Over (suc f) k r h x m =
        let r' = wave env task instance_id (plan_of nodes) k r in
        let good = wave-Good k r h in
        next_round f k r r' (length r.ready == 0) r'.any_failed refl (well.not_canceled k)
          good.fine.2 h x
          (λ e.
            waves-Over f (k + 1) r' good (kept k r h x)
              (omega (arith, measure-wave k r h.counting.ready_ok e)))

  none_left :
      (t : List Event) (ds : List Text)
      → ((d : Text) → mem d ds ≡ true → was_joined d t ≡ true)
      → unjoined t ds ≡ 0
  none_left t [] h = refl
  none_left t (d ∷ ds) h =
      rw (h d (rw (text_eq_refl d) refl))
        (omega (arith, none_left t ds (λ e i. h e (ground (arith, text_eq_iff d e)))))

  -- Where nothing is ready, nothing waits: by induction on the chains of dependencies.
  pub all_started :
      (r : Exec) (x : Text)
      → Good r
      → (length r.ready == 0) ≡ true
      → ((d y : Text) → Needs nodes d y → listed d nodes ≡ true)
      → IsGrounded nodes x
      → listed x nodes ≡ true
      → contains x r.waiting ≡ false
  unfolding find_node
  all_started r x g none_now close (Acc.intro _ below) l =
      elim (Bool-cases (contains x r.waiting)) [
        | inr e ↦ e
        | inl waits ↦
            let n = some-listed nodes u x l in
            let deps_done = none_left r.events n.0.deps (λ d i.
              let need : Needs nodes d x = ap (λ q. mem d (deps_of q)) n.1 ∙ i in
              g.fine.1 d (close d x need)
                (all_started r d g none_now close (below d need) (close d x need)) refl) in
            absurd (
              none_ready r.ready none_now
                (g.fine.0 x l waits (g.holds.counted x n.0 n.1 ∙ ap some deps_done)))
      ]
    where
      none_ready : (ns : List TaskNode) → (length ns == 0) ≡ true → listed x ns ≡ true → ⊥
      none_ready [] e h = false≢true h
      none_ready (m ∷ ns) e h = ground arith
