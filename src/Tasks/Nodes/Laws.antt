-- ===== src/Tasks/Nodes/Laws.antt =====
-- src/dag.rs: the attempts of `run_node` and the steps of an attempt.
use rdsctl.Base.{
  leb, if◌then◌else◌, length, add32, Text, ℕ, zero, suc, ◌+◌, ◌^◌, ◌≤◌, ◌<◌, ◌≡◌, refl, ap, subst,
  Bool, true, false, Option, none, some, List, [], ◌∷◌, ◌++◌, arith,
}
use rdsctl.Tasks.{Step, StepCtx, TaskNode, Answer, ok, err}
use rdsctl.Tasks.Nodes.{
  StepExecutor, join_lines, Attempt, NodeRun, step_ctx, in_time, next_step, run_steps,
  after_attempt, give_up, try_node, or_endless, run_node,
}

module _ {World : Type 0} (executor : StepExecutor World) where
  abbrev continue_with : Attempt World → (World → Attempt World) → Option Text → Attempt World
  continue_with a go none = let b = go a.after in record b { logs = a.logs ++ b.logs }
  continue_with a go (some e) = a

  after_first :
      (p : World × Answer Text) (f : World → Attempt World) (g : World → Attempt World)
      (h : World → Attempt World)
      → ((w : World) → f w ≡ continue_with (g w) h (g w).node_err)
      → next_step p f ≡ continue_with (next_step p g) h (next_step p g).node_err
  after_first (w, err e) f g h eq = refl
  after_first (w, ok o) f g h eq = rw (eq w) (prepend o (g w) h (g w).node_err)
    where
      prepend :
          (o : Text) (a : Attempt World) (h : World → Attempt World) (e : Option Text)
          → record (continue_with a h e) { logs = o ∷ (continue_with a h e).logs }
            ≡ continue_with (record a { logs = o ∷ a.logs }) h e
      prepend o a h none = refl
      prepend o a h (some e) = refl

  -- The steps of a list run one after the other, each at its index in the task: the later ones find
  -- what the earlier ones left, and are not run when one of those fails.
  pub run_steps-append :
      (ctx : ℕ → StepCtx) (limit : Option ℕ) (ss ts : List Step) (i : ℕ) (w : World)
      → run_steps executor ctx limit (ss ++ ts) i w
        ≡ continue_with
            (run_steps executor ctx limit ss i w)
            (run_steps executor ctx limit ts (i + length ss))
            (run_steps executor ctx limit ss i w).node_err
  unfolding run_steps
  run_steps-append ctx limit [] ts i w = ap (λ j. run_steps executor ctx limit ts j w) (omega arith)
  run_steps-append ctx limit (s ∷ ss) ts i w =
      after_first (in_time limit (executor (ctx i) s w))
        (run_steps executor ctx limit (ss ++ ts) (i + 1)) (run_steps executor ctx limit ss (i + 1))
        (run_steps executor ctx limit ts (i + suc (length ss)))
        (λ v.
          subst
            (λ (j : ℕ).
              run_steps executor ctx limit (ss ++ ts) (i + 1) v
              ≡ continue_with (run_steps executor ctx limit ss (i + 1) v)
                  (run_steps executor ctx limit ts j)
                  (run_steps executor ctx limit ss (i + 1) v).node_err)
            (omega arith) (run_steps-append ctx limit ss ts (i + 1) v))

  module _ (task instance_id : Text) (node : TaskNode) where
    -- All steps of the task, once.
    unfoldable pub attempt : World → Attempt World
    attempt w =
        run_steps executor (step_ctx task instance_id node.id) node.timeout_secs node.steps 0 w

    -- The first `k` attempts fail.
    abbrev pub FailsFirst : ℕ → World → Type 0
    FailsFirst zero w = Unit
    FailsFirst (suc k) w =
        ((e : Text) × ((attempt w).node_err ≡ some e)) × FailsFirst k (attempt w).after

    abbrev pub world_after : ℕ → World → World
    world_after zero w = w
    world_after (suc k) w = world_after k (attempt w).after

    -- Either some attempt within the limit is the first to succeed, and its output is the result, or
    -- all that the limit allows fail.
    abbrev pub Verdict : ℕ → ℕ → World → ℕ → Answer Text → Type 0
    Verdict left before w attempts (ok o) =
        (k : ℕ) × (attempts ≡ before + k)
        × (k ≤ left)
        × FailsFirst k w
        × ((attempt (world_after k w)).node_err ≡ none)
        × (o ≡ join_lines (attempt (world_after k w)).logs)
    Verdict left before w attempts (err e) = (attempts ≡ before + left) × FailsFirst (suc left) w

    later :
        (left before : ℕ) (w : World) (e : Text) (n : ℕ) (out : Answer Text)
        → (attempt w).node_err ≡ some e
        → Verdict left (before + 1) (attempt w).after n out
        → Verdict (suc left) before w n out
    later left before w e n (ok o) fails (k, c, b, f, d, l) =
        (suc k, omega arith, omega arith, ((e, fails), f), d, l)
    later left before w e n (err t) fails (c, f) = (omega arith, ((e, fails), f))

    -- The loop ended, with a result that its attempts explain.
    abbrev pub Ended : ℕ → ℕ → World → Option (NodeRun World) → Type 0
    Ended left before w none = ⊥
    Ended left before w (some r) = Verdict left before w r.attempts r.out

    last_try :
        (before : ℕ) (w : World) (o : Option Text)
        → (attempt w).node_err ≡ o
        → Ended 0 before w
            (after_attempt node.id before (attempt w) (some (give_up node.id before (attempt w))) o)
    last_try before w none e = (0, omega arith, omega arith, tt, e, refl)
    last_try before w (some t) e = (omega arith, ((t, e), tt))

    one_try :
        (left before : ℕ) (w : World) (again : Option (NodeRun World)) (o : Option Text)
        → (attempt w).node_err ≡ o
        → Ended left (before + 1) (attempt w).after again
        → Ended (suc left) before w (after_attempt node.id before (attempt w) again o)
    one_try left before w again none e v = (0, omega arith, omega arith, tt, e, refl)
    one_try left before w none (some t) e v = absurd v
    one_try left before w (some r) (some t) e v = later left before w t r.attempts r.out e v

    -- With `left` retries left before the limit, which the counter can pass, fuel for one attempt more
    -- is enough.
    try_node-Ended :
        (left before : ℕ) (w : World)
        → before + left ≡ node.retries
        → node.retries + 1 < 2 ^ 32
        → Ended left (before + 1) w (try_node executor task instance_id node (suc left) before w)
    unfolding try_node attempt
    try_node-Ended zero before w e small =
        let count : add32 before 1 ≡ before + 1 = omega arith in
        let past : leb (before + 1) node.retries ≡ false = ground arith in
        rw (count, past) (last_try (before + 1) w _ refl)
    try_node-Ended (suc left) before w e small =
        let count : add32 before 1 ≡ before + 1 = omega arith in
        let within : leb (before + 1) node.retries ≡ true = ground arith in
        rw (count, within)
          (one_try left (before + 1) w _ _ refl
            (try_node-Ended left (before + 1) (attempt w).after (omega arith) small))

    settled :
        (w : World) (o : Option (NodeRun World))
        → Ended node.retries 1 w o
        → (o ≡ some (or_endless node.id w o))
          × Verdict node.retries 1 w (or_endless node.id w o).attempts (or_endless node.id w o).out
    settled w none v = absurd v
    settled w (some r) v = (refl, v)

    -- A task that has fewer retries than the greatest u32 is tried until an attempt succeeds, at most
    -- once more than it has retries, and then the loop ends. The attempts are counted from 1, each
    -- starts from what the one before it left, and the output of a success is that of the steps of the
    -- attempt that succeeded.
    pub run_node-Verdict :
        (w : World)
        → node.retries + 1 < 2 ^ 32
        → (try_node executor task instance_id node (suc node.retries) 0 w
            ≡ some (run_node executor task instance_id node w))
          × Verdict node.retries 1 w
              (run_node executor task instance_id node w).attempts
              (run_node executor task instance_id node w).out
    unfolding run_node
    run_node-Verdict w small = settled w _ (try_node-Ended node.retries 0 w (omega arith) small)

    -- With the greatest u32 as the number of retries, the loop does not end while attempts fail,
    -- whatever the fuel.
    pub try_node_endless :
        (fuel before : ℕ) (w : World)
        → node.retries + 1 ≡ 2 ^ 32
        → FailsFirst fuel w
        → try_node executor task instance_id node fuel before w ≡ none
    unfolding try_node attempt
    try_node_endless zero before w e f = refl
    try_node_endless (suc fuel) before w e ((t, fails), f) =
        let within : leb (add32 before 1) node.retries ≡ true = ground arith in
        rw (fails, within) (try_node_endless fuel (add32 before 1) (attempt w).after e f)

    -- The result is that of the node.
    abbrev OfNode : Option (NodeRun World) → Type 0
    OfNode none = Unit
    OfNode (some r) = r.id ≡ node.id

    try_node_id :
        (fuel before : ℕ) (w : World)
        → OfNode (try_node executor task instance_id node fuel before w)
    unfolding try_node attempt
    try_node_id zero before w = tt
    try_node_id (suc fuel) before w =
        by_result (add32 before 1) (attempt w)
          (try_node executor task instance_id node fuel (add32 before 1) (attempt w).after)
          (leb (add32 before 1) node.retries) (attempt w).node_err
          (try_node_id fuel (add32 before 1) (attempt w).after)
      where
        by_result :
            (n : ℕ) (a : Attempt World) (again : Option (NodeRun World)) (b : Bool)
            (o : Option Text)
            → OfNode again
            → OfNode (after_attempt node.id n a (if b then again else some (give_up node.id n a)) o)
        by_result n a again b none e = refl
        by_result n a again true (some t) e = e
        by_result n a again false (some t) e = refl

    pub run_node_id : (w : World) → (run_node executor task instance_id node w).id ≡ node.id
    unfolding run_node
    run_node_id w =
        of_result (try_node executor task instance_id node (suc node.retries) 0 w)
          (try_node_id (suc node.retries) 0 w)
      where
        of_result : (o : Option (NodeRun World)) → OfNode o → (or_endless node.id w o).id ≡ node.id
        of_result none e = refl
        of_result (some r) e = e
