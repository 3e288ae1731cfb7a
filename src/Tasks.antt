-- ===== src/Tasks.antt =====
-- src/dag.rs: the data of the task graphs. Maps and sets of ids are ordered maps here; no function
-- depends on the order of a `HashMap`.
pub mod Cycle
pub mod Nodes
pub mod Plan
pub mod Execute
pub mod Scheduler
pub mod Resume
pub mod Labels
use rdsctl.Base.{is_some, Text, ℕ, Bool, Option, none, List, [], ◌∷◌, text_key}
use rdsctl.Base.Map
use rdsctl.Base.Map.{Map}

pub data TaskStatus : Type 0 where
  pending running success failed skipped : TaskStatus

pub record NodeResult : Type 0 where
  pub status : TaskStatus
  pub output : Text
  pub attempts : ℕ
  pub started_at : ℕ
  pub finished_at : ℕ

-- The steps; the executor tells what they do.
pub data Step : Type 0 where
  docker_run docker_exec : (container : Text) (args : List Text) → Step
  docker_rm : (container : Text) → Step
  network_create network_rm : (name : Text) → Step
  exec_sql : (container user pass sql : Text) → Step
  host_mysql : (port : ℕ) (user pass sql : Text) → Step
  wait_healthy : (container : Text) (timeout_secs : ℕ) → Step
  wait_mysql : (container user pass : Text) (timeout_secs : ℕ) → Step
  write_host_file : (path content : Text) → Step
  update_instance_status : (instance_id status : Text) → Step
  update_instance_topology :
      (instance_id container role : Text) (host_port server_id : ℕ) (region az shard parent : Text)
      → Step
  verify_replication : (master : Text) (slaves : List Text) (proxy_port : ℕ) → Step
  verify_scaleout : (master new_slave : Text) → Step
  verify_xenon : (members : List Text) → Step
  ensure_lvs stop_lvs : (instance_id : Text) → Step
  audit : (instance_id action params : Text) → Step
  dts_run : (instance_id node dts_container target_label spec : Text) → Step
  replace_node_core replace_node_commit :
      (instance_id node host : Text) (host_port server_id : ℕ) → Step
  migrate_instance : (instance_id region az hosts : Text) → Step
  noop : (note : Text) → Step

pub record StepCtx : Type 0 where
  pub task_id : Text
  pub instance_id : Text
  pub node_id : Text
  pub step_idx : ℕ

pub record TaskNode : Type 0 where
  pub id : Text
  pub name : Text
  pub deps : List Text
  pub retries : ℕ
  pub timeout_secs : Option ℕ
  pub steps : List Step

pub record TaskMeta : Type 0 where
  pub status : TaskStatus
  pub started_at : Option ℕ
  pub finished_at : Option ℕ

-- `TaskMeta::default()`.
abbrev pub new_meta : TaskMeta
new_meta = record { status = TaskStatus.pending; started_at = none; finished_at = none }

pub record DagTask : Type 0 where
  pub id : Text
  pub kind : Text
  pub instance_id : Text
  pub creator : Text
  pub created_at : ℕ
  pub meta : TaskMeta
  pub nodes : Map Text Text
  pub deps : Map Text (List Text)
  pub results : Map Text NodeResult
  pub defs : Map Text TaskNode
  pub defs_order : List TaskNode

-- `Result<T, String>`.
pub data Answer {ℓ} (A : Type ℓ) : Type ℓ where
  ok : A → Answer A
  err : Text → Answer A

abbrev pub IdSet : Type 0
IdSet = Map Text (Unit {0})

unfoldable pub contains : Text → IdSet → Bool
unfolding Map.get
contains v s = is_some (Map.get v s)

-- `iter().map(|n| (n.id.clone(), value(n))).collect()`: a later node replaces an earlier one.
unfoldable pub index {ℓ} : {V : Type ℓ} → (TaskNode → V) → List TaskNode → Map Text V → Map Text V
index value [] m = m
index value (n ∷ ns) m = index value ns (Map.insert n.id (value n) m)
