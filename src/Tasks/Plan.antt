-- ===== src/Tasks/Plan.antt =====
-- src/dag.rs: the variables of `execute`, the maps that it builds from the nodes, and the nodes that the
-- end of a node releases.
use rdsctl.Base.{
  ◌==◌, if◌then◌else◌, Text, ℕ, ◌-◌, Bool, true, false, ◌&&◌, Option, none, some, List, [], ◌∷◌,
  ◌++◌, text_key,
}
use rdsctl.Base.Map
use rdsctl.Base.Map.{Map}
use rdsctl.Tasks.{TaskStatus, NodeResult, TaskNode, TaskMeta, IdSet, contains, index}
use rdsctl.Tasks.Nodes.{StepExecutor}

-- `spawned` and `joined` stand for the calls of the `JoinSet`, the others for those of the store.
pub data Event : Type 0 where
  spawned : TaskNode → Event
  joined : Text → Bool → Event
  node_row : TaskNode → NodeResult → Event
  task_row : TaskMeta → Event
  audited : Bool → Event

-- What `execute` does not decide. A wave is a round of its loop; `clock` is read once for each record.
pub record Env (World : Type 0) : Type 0 where
  pub executor : StepExecutor World
  pub begins : ℕ → TaskNode → World
  pub position : ℕ → Text → ℕ
  pub panics : ℕ → Text → Option Text
  pub cancel_flag : ℕ → Text → Bool
  pub is_canceled : ℕ → Bool
  pub canceled_at_end : Bool
  pub clock : ℕ → Text → ℕ
  pub has_store : Bool

pub record Exec : Type 0 where
  pub deps_left : Map Text ℕ
  pub waiting : IdSet
  pub ready : List TaskNode
  pub any_failed : Bool
  pub results : Map Text NodeResult
  pub events : List Event

pub record Plan : Type 0 where
  pub nodes : List TaskNode
  pub dependents : Map Text (List Text)
  pub node_by_id : Map Text TaskNode

abbrev pub or_empty {ℓ} : {A : Type ℓ} → Option (List A) → List A
or_empty none = []
or_empty (some xs) = xs

-- `dependents.entry(d).or_default().push(id)` for each dependency, then for each node.
unfoldable pub add_edges : Text → List Text → Map Text (List Text) → Map Text (List Text)
add_edges id [] m = m
add_edges id (d ∷ ds) m = add_edges id ds (Map.insert d (or_empty (Map.get d m) ++ id ∷ []) m)

unfoldable pub edges : List TaskNode → Map Text (List Text) → Map Text (List Text)
unfolding add_edges
edges [] m = m
edges (n ∷ ns) m = edges ns (add_edges n.id n.deps m)

unfoldable pub plan_of : List TaskNode → Plan
unfolding edges
plan_of nodes = record {
  nodes = nodes;
  dependents = edges nodes [];
  node_by_id = index (λ n. n) nodes [];
}

abbrev pub persist : Bool → Event → List Event → List Event
persist true e es = e ∷ es
persist false e es = es

abbrev pub record_at : TaskStatus → Text → ℕ → ℕ → NodeResult
record_at s output attempts now = record {
  status = s;
  output = output;
  attempts = attempts;
  started_at = now;
  finished_at = now;
}

-- `ready.push` when the last dependency of a node that waits has ended.
abbrev pub push_ready : Option TaskNode → Exec → Exec
push_ready none r = r
push_ready (some n) r = record r { ready = r.ready ++ n ∷ [] }

abbrev pub count_down : Plan → Text → Option ℕ → Exec → Exec
count_down p d none r = r
count_down p d (some c) r =
    let r' = record r { deps_left = Map.insert d (c - 1) r.deps_left } in
    if (c - 1 == 0) && contains d r.waiting then push_ready (Map.get d p.node_by_id) r' else r'

unfoldable pub release : Plan → List Text → Exec → Exec
unfolding Map.get
release p [] r = r
release p (d ∷ ds) r = release p ds (count_down p d (Map.get d r.deps_left) r)
