-- ===== src/State/Apply.antt =====
-- src/ha/state.rs: `apply`, and the image that snapshots hold.
pub mod Invariant
pub mod Refusals
pub mod Image
use rdsctl.Base.{
  ltb, leb, ◌==◌, if◌then◌else◌, length, drop, add64, Text, codes, ℕ, ◌-◌, List, [], ◌∷◌, ◌++◌,
}
use rdsctl.Base.Decimal
use rdsctl.Base.Map
use rdsctl.State.{
  invalid, Applied, ok, rejected, AuditRow, Op, noop, put, delete, config_set, lease_grant,
  lease_renew, lease_release, lease_purge, step_begin, step_done, audit_append, StateMachine,
}
use rdsctl.State.Kv.{apply_put, apply_delete}
use rdsctl.State.Leases.{apply_grant, apply_renew, apply_release, apply_purge}
use rdsctl.State.Steps.{step_key, apply_begin, apply_done}

-- Only the newest rows are kept.
unfoldable pub trim_tail : ℕ → List AuditRow → List AuditRow
trim_tail limit rows = if ltb limit (length rows) then drop (length rows - limit) rows else rows

module _ {Value : Type 0} where
  unfoldable pub apply_config : ℕ → ℕ → StateMachine Value → StateMachine Value × Applied Value
  apply_config config_epoch max_skew_ms s =
      if leb config_epoch s.config_epoch
      then (
        s,
        rejected (
            invalid (
              codes "config_epoch 必须递增:当前 "
              ++ Decimal.display s.config_epoch
              ++ codes ",收到 "
              ++ Decimal.display config_epoch)),
      )
      else if max_skew_ms == 0
      then (s, rejected (invalid (codes "max_skew_ms 不能为 0")))
      else (record s { config_epoch = config_epoch; max_skew_ms = max_skew_ms }, ok)

  unfoldable pub apply_audit :
      Text
      → Text
      → Text
      → Text
      → Text
      → Text
      → ℕ
      → StateMachine Value
      → StateMachine Value × Applied Value
  unfolding trim_tail
  apply_audit who instance_id action params result task_id index s = (
    record s {
      audit_seq = seq;
      audit_tail = trim_tail s.audit_tail_cap (s.audit_tail ++ row ∷ []);
    },
    ok,
  )
    where
      seq : ℕ
      seq = add64 s.audit_seq 1

      row : AuditRow
      row = record {
        seq = seq;
        index = index;
        who = who;
        instance_id = instance_id;
        action = action;
        params = params;
        result = result;
        task_id = task_id;
      }

  unfoldable pub apply_inner :
      ℕ → ℕ → Op Value → StateMachine Value → StateMachine Value × Applied Value
  unfolding apply_put apply_delete apply_config apply_grant apply_renew apply_release apply_purge
      apply_begin apply_done apply_audit
  apply_inner term index noop s = (s, ok)
  apply_inner term index (put key value expect_ver) s = apply_put key value expect_ver index s
  apply_inner term index (delete key expect_ver) s = apply_delete key expect_ver s
  apply_inner term index (config_set epoch skew) s = apply_config epoch skew s
  apply_inner term index (lease_grant i h ttl at_ms) s = apply_grant i h ttl at_ms term index s
  apply_inner term index (lease_renew i h at_ms) s = apply_renew i h at_ms term index s
  apply_inner term index (lease_release i h) s = apply_release i h s
  apply_inner term index (lease_purge cutoff_ms) s = apply_purge cutoff_ms s
  apply_inner term index (step_begin task_id node step idem_key) s =
      apply_begin (step_key task_id node step idem_key) index s
  apply_inner term index (step_done task_id node step idem_key result) s =
      apply_done (step_key task_id node step idem_key) result index s
  apply_inner term index (audit_append who i action params result task_id) s =
      apply_audit who i action params result task_id index s

  -- `apply`: the position is recorded also when the operation is refused.
  unfoldable pub apply : ℕ → ℕ → Op Value → StateMachine Value → StateMachine Value × Applied Value
  unfolding apply_inner
  apply term index op s =
      let (s', out) = apply_inner term index op s in
      (record s' { applied_index = index; applied_term = term }, out)
