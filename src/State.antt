-- ===== src/State.antt =====
-- src/ha/state.rs: the data of the replicated state machine. `Value`, the type of JSON values
-- (serde_json), is a parameter: the state machine stores values and never looks into them.
pub mod Kv
pub mod Leases
pub mod Steps
pub mod Apply
pub mod Run
use rdsctl.Base.{
  ltb, ◌==◌, if◌then◌else◌, Text, text_eq, ℕ, Bool, true, false, ◌&&◌, Option, List, [],
}
use rdsctl.Base.Map.{Map}
use rdsctl.Fence.{Fence}

-- Why an operation was refused.
pub data Reject : Type 0 where
  version_conflict : (key : Text) (expect actual : ℕ) → Reject
  not_found : (key : Text) → Reject
  lease_held : (instance_id holder : Text) → Reject
  lease_conflict_not_yet_safe : (instance_id : Text) (safe_from_ms : ℕ) → Reject
  lease_not_held : (instance_id holder : Text) → Reject
  invalid : (message : Text) → Reject

pub data Applied (Value : Type 0) : Type 0 where
  ok : Applied Value
  rejected : Reject → Applied Value
  step_already_done : (result : Option Value) → Applied Value

pub record KvEntry (Value : Type 0) : Type 0 where
  pub value : Value
  pub ver : ℕ
  pub updated_index : ℕ

pub record Lease : Type 0 where
  pub instance_id : Text
  pub holder : Text
  pub granted_term : ℕ
  pub granted_index : ℕ
  pub expire_at_ms : ℕ
  pub ttl_ms : ℕ
  pub renewals : ℕ

-- `Lease::fence`.
unfoldable pub fence_of : Lease → ℕ → Fence
fence_of l shard = record { shard = shard; term = l.granted_term; index = l.granted_index }

-- `Lease::held_by`.
unfoldable pub held_by : Lease → Text → ℕ → Bool
held_by l holder at_ms = text_eq l.holder holder && ltb at_ms l.expire_at_ms

pub data StepState : Type 0 where
  started done : StepState

pub record StepRecord (Value : Type 0) : Type 0 where
  pub state : StepState
  pub attempts : ℕ
  pub result : Option Value
  pub started_index : ℕ
  pub done_index : Option ℕ

pub record AuditRow : Type 0 where
  pub seq : ℕ
  pub index : ℕ
  pub who : Text
  pub instance_id : Text
  pub action : Text
  pub params : Text
  pub result : Text
  pub task_id : Text

pub data Op (Value : Type 0) : Type 0 where
  noop : Op Value
  put : (key : Text) (value : Value) (expect_ver : Option ℕ) → Op Value
  delete : (key : Text) (expect_ver : Option ℕ) → Op Value
  config_set : (config_epoch max_skew_ms : ℕ) → Op Value
  lease_grant : (instance_id holder : Text) (ttl_ms at_ms : ℕ) → Op Value
  lease_renew : (instance_id holder : Text) (at_ms : ℕ) → Op Value
  lease_release : (instance_id holder : Text) → Op Value
  lease_purge : (cutoff_ms : ℕ) → Op Value
  step_begin : (task_id node : Text) (step : ℕ) (idem_key : Text) → Op Value
  step_done : (task_id node : Text) (step : ℕ) (idem_key : Text) (result : Value) → Op Value
  audit_append : (who instance_id action params result task_id : Text) → Op Value

pub record StateMachine (Value : Type 0) : Type 0 where
  pub shard : ℕ
  pub config_epoch : ℕ
  pub max_skew_ms : ℕ
  pub applied_index : ℕ
  pub applied_term : ℕ
  pub audit_seq : ℕ
  pub kv : Map Text (KvEntry Value)
  pub leases : Map Text Lease
  pub steps : Map Text (StepRecord Value)
  pub audit_tail : List AuditRow
  pub audit_tail_cap : ℕ

module _ {Value : Type 0} where
  -- `Op::mutates`.
  unfoldable pub mutates : Op Value → Bool
  mutates noop = false
  mutates _ = true

  -- `Op::with_now`: the proposer's clock fills in an `at_ms` that is 0.
  unfoldable pub with_now : Op Value → ℕ → Op Value
  with_now (lease_grant i h ttl at_ms) now = lease_grant i h ttl (if at_ms == 0 then now else at_ms)
  with_now (lease_renew i h at_ms) now = lease_renew i h (if at_ms == 0 then now else at_ms)
  with_now op now = op

  -- `StateMachine::new`.
  unfoldable pub new : ℕ → ℕ → StateMachine Value
  new shard max_skew_ms = record {
    shard = shard;
    config_epoch = 0;
    max_skew_ms = max_skew_ms;
    applied_index = 0;
    applied_term = 0;
    audit_seq = 0;
    kv = [];
    leases = [];
    steps = [];
    audit_tail = [];
    audit_tail_cap = 2000;
  }
