-- ===== src/State/Leases.antt =====
-- src/ha/state.rs: the instance leases; `Op::LeaseGrant`, `LeaseRenew`, `LeaseRelease` and
-- `LeasePurge`.
pub mod Exclusion
pub mod Loss
pub mod Fences
use rdsctl.Base.{
  ltb, ◌==◌, if◌then◌else◌, add64, saturating_add, saturating_mul, Text, codes, text_eq, is_blank,
  ℕ, ◌||◌, Option, none, some, ◌++◌, text_key,
}
use rdsctl.Base.Decimal
use rdsctl.Base.Map
use rdsctl.State.{
  Reject, lease_conflict_not_yet_safe, lease_not_held, invalid, Applied, ok, rejected, Lease,
  StateMachine,
}

abbrev ttl_message : ℕ → ℕ → Text
ttl_message ttl_ms max_skew_ms =
    codes "ttl_ms="
    ++ Decimal.display ttl_ms
    ++ codes " 违反前提 A1:必须 ≥ 10×max_skew(="
    ++ Decimal.display (saturating_mul max_skew_ms 10)
    ++ codes ")"

-- The conflict test: another holder's lease is safe to replace from its expiry plus the skew.
conflict : Option Lease → Text → Text → ℕ → ℕ → Option Reject
conflict none instance_id holder at_ms max_skew_ms = none
conflict (some old) instance_id holder at_ms max_skew_ms =
    let safe_from = saturating_add old.expire_at_ms max_skew_ms in
    if text_eq old.holder holder
    then none
    else if ltb at_ms safe_from
    then some (lease_conflict_not_yet_safe instance_id safe_from)
    else none

-- The lease that a grant writes.
abbrev pub granted : Text → Text → ℕ → ℕ → ℕ → ℕ → Lease
granted instance_id holder ttl_ms at_ms term index = record {
  instance_id = instance_id;
  holder = holder;
  granted_term = term;
  granted_index = index;
  expire_at_ms = saturating_add at_ms ttl_ms;
  ttl_ms = ttl_ms;
  renewals = 0;
}

-- The lease that a renewal writes.
abbrev pub renewed : Lease → ℕ → ℕ → ℕ → Lease
renewed cur at_ms term index = record cur {
  expire_at_ms = saturating_add at_ms cur.ttl_ms;
  renewals = add64 cur.renewals 1;
  granted_term = term;
  granted_index = index;
}

module _ {Value : Type 0} where
  -- The guards of a grant, in their order.
  pub grant_check : Text → Text → ℕ → ℕ → StateMachine Value → Option Reject
  unfolding conflict
  grant_check instance_id holder ttl_ms at_ms s =
      if is_blank instance_id || is_blank holder
      then some (invalid (codes "instance/holder 为空"))
      else if ttl_ms == 0
      then some (invalid (codes "ttl_ms 不能为 0"))
      else if ltb ttl_ms (saturating_mul s.max_skew_ms 10)
      then some (invalid (ttl_message ttl_ms s.max_skew_ms))
      else conflict (Map.get instance_id s.leases) instance_id holder at_ms s.max_skew_ms

  abbrev write_lease : Text → Lease → StateMachine Value → StateMachine Value × Applied Value
  write_lease instance_id l s = (record s { leases = Map.insert instance_id l s.leases }, ok)

  grant_checked :
      Option Reject → Text → Lease → StateMachine Value → StateMachine Value × Applied Value
  grant_checked (some r) instance_id l s = (s, rejected r)
  grant_checked none instance_id l s = write_lease instance_id l s

  unfoldable pub apply_grant :
      Text → Text → ℕ → ℕ → ℕ → ℕ → StateMachine Value → StateMachine Value × Applied Value
  unfolding grant_check grant_checked
  apply_grant instance_id holder ttl_ms at_ms term index s =
      grant_checked (grant_check instance_id holder ttl_ms at_ms s) instance_id
        (granted instance_id holder ttl_ms at_ms term index) s

  renew_found :
      Option Lease
      → Text
      → Text
      → ℕ
      → ℕ
      → ℕ
      → StateMachine Value
      → StateMachine Value × Applied Value
  renew_found none instance_id holder at_ms term index s =
      (s, rejected (lease_not_held instance_id holder))
  renew_found (some cur) instance_id holder at_ms term index s =
      if text_eq cur.holder holder
      then write_lease instance_id (renewed cur at_ms term index) s
      else (s, rejected (lease_not_held instance_id holder))

  unfoldable pub apply_renew :
      Text → Text → ℕ → ℕ → ℕ → StateMachine Value → StateMachine Value × Applied Value
  unfolding renew_found
  apply_renew instance_id holder at_ms term index s =
      renew_found (Map.get instance_id s.leases) instance_id holder at_ms term index s

  release_found :
      Option Lease → Text → Text → StateMachine Value → StateMachine Value × Applied Value
  release_found none instance_id holder s = (s, rejected (lease_not_held instance_id holder))
  release_found (some cur) instance_id holder s =
      if text_eq cur.holder holder
      then (record s { leases = Map.remove instance_id s.leases }, ok)
      else (s, rejected (lease_not_held instance_id holder))

  unfoldable pub apply_release :
      Text → Text → StateMachine Value → StateMachine Value × Applied Value
  unfolding release_found
  apply_release instance_id holder s =
      release_found (Map.get instance_id s.leases) instance_id holder s

  unfoldable pub apply_purge : ℕ → StateMachine Value → StateMachine Value × Applied Value
  apply_purge cutoff_ms s =
      (record s { leases = Map.retain (λ k l. ltb cutoff_ms l.expire_at_ms) s.leases }, ok)
