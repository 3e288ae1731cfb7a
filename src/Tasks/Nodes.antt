-- ===== src/Tasks/Nodes.antt =====
-- src/dag.rs: `run_node`. The executor is an argument, a function on a state that stands for
-- everything outside; the wait of 500 ms between two attempts is left out. The loop runs on fuel.
pub mod Laws
use rdsctl.Base.{
  ltb, leb, if◌then◌else◌, unwrap_or, add32, Text, codes, ℕ, zero, suc, ◌+◌, ◌*◌, Option, none,
  some, List, [], ◌∷◌, ◌++◌,
}
use rdsctl.Base.Decimal.{display}
use rdsctl.Tasks.{Step, StepCtx, TaskNode, Answer, ok, err}

-- One step: the state after it, its duration, its result, and the state if it is dropped at its time
-- limit.
pub record Ran (World : Type 0) : Type 0 where
  pub after : World
  pub took_ms : ℕ
  pub result : Answer Text
  pub dropped : World

abbrev pub StepExecutor : Type 0 → Type 0
StepExecutor World = StepCtx → Step → World → Ran World

-- `logs.join("\n")`.
unfoldable pub join_lines : List Text → Text
join_lines [] = []
join_lines (l ∷ []) = l
join_lines (l ∷ m ∷ ls) = l ++ (10 ∷ join_lines (m ∷ ls))

unfoldable pub with_newline : Text → Text
with_newline [] = []
with_newline (c ∷ s) = (c ∷ s) ++ 10 ∷ []

-- `format!("[第 {attempts} 次尝试失败] {err}")` after the output so far.
abbrev pub failure_text : List Text → ℕ → Text → Text
failure_text logs attempts e =
    with_newline (join_lines logs) ++ (codes "[第 " ++ (display attempts ++ (codes " 次尝试失败] " ++ e)))

-- The steps from index `i` on; the error that ended them, and the output of those before it.
pub record Attempt (World : Type 0) : Type 0 where
  pub after : World
  pub logs : List Text
  pub node_err : Option Text

pub record NodeRun (World : Type 0) : Type 0 where
  pub after : World
  pub id : Text
  pub out : Answer Text
  pub attempts : ℕ

abbrev pub step_ctx : Text → Text → Text → ℕ → StepCtx
step_ctx task instance_id node i = record {
  task_id = task;
  instance_id = instance_id;
  node_id = node;
  step_idx = i;
}

module _ {World : Type 0} where
  -- `tokio::time::timeout`, when the node has a limit.
  unfoldable pub in_time : Option ℕ → Ran World → World × Answer Text
  in_time none r = (r.after, r.result)
  in_time (some secs) r =
      if ltb (secs * 1000) r.took_ms
      then (r.dropped, err (codes "步骤超时(>" ++ (display secs ++ codes "s)")))
      else (r.after, r.result)

  abbrev pub next_step : World × Answer Text → (World → Attempt World) → Attempt World
  next_step (w, err e) go = record { after = w; logs = []; node_err = some e }
  next_step (w, ok o) go = let rest = go w in record rest { logs = o ∷ rest.logs }

  unfoldable pub run_steps :
      StepExecutor World → (ℕ → StepCtx) → Option ℕ → List Step → ℕ → World → Attempt World
  unfolding in_time
  run_steps executor ctx limit [] i w = record { after = w; logs = []; node_err = none }
  run_steps executor ctx limit (s ∷ ss) i w =
      next_step (in_time limit (executor (ctx i) s w)) (run_steps executor ctx limit ss (i + 1))

  abbrev pub after_attempt :
      Text → ℕ → Attempt World → Option (NodeRun World) → Option Text → Option (NodeRun World)
  after_attempt id attempts a again none =
      some (record { after = a.after; id = id; out = ok (join_lines a.logs); attempts = attempts })
  after_attempt id attempts a again (some e) = again

  abbrev pub give_up : Text → ℕ → Attempt World → NodeRun World
  give_up id attempts a = record {
    after = a.after;
    id = id;
    out = err (failure_text a.logs attempts (unwrap_or a.node_err []));
    attempts = attempts;
  }

  -- The attempts behind the first `attempts` ones: the counter is a u32 and wraps around, and a failure
  -- is tried again as long as `attempts <= retries`. None when the fuel ends before the loop does.
  unfoldable pub try_node :
      StepExecutor World → Text → Text → TaskNode → ℕ → ℕ → World → Option (NodeRun World)
  unfolding run_steps
  try_node executor task instance_id node zero before w = none
  try_node executor task instance_id node (suc fuel) before w =
      let attempts = add32 before 1 in
      let a =
        run_steps executor (step_ctx task instance_id node.id) node.timeout_secs node.steps 0 w in
      let again = try_node executor task instance_id node fuel attempts a.after in
      after_attempt node.id attempts a
        (if leb attempts node.retries then again else some (give_up node.id attempts a)) a.node_err

  -- What stands for a loop that does not end, as when `retries` is the greatest u32 and every attempt
  -- fails.
  abbrev pub or_endless : Text → World → Option (NodeRun World) → NodeRun World
  or_endless id w none = record { after = w; id = id; out = err []; attempts = 0 }
  or_endless id w (some r) = r

  -- The fuel allows one attempt more than there are retries, the most that the loop can make when the
  -- counter does not wrap around.
  unfoldable pub run_node : StepExecutor World → Text → Text → TaskNode → World → NodeRun World
  unfolding try_node
  run_node executor task instance_id node w =
      or_endless node.id w (try_node executor task instance_id node (suc node.retries) 0 w)
