-- ===== src/Raft/StepDown.antt =====
-- src/ha/raft.rs: `step_down`, and the proposals of leases.
pub mod Cores
use rdsctl.Base.{
  ltb, leb, if◌then◌else◌, unwrap_or, add64, saturating_mul, Text, ℕ, Bool, true, false, not,
  Option, none, some, List, [], ◌∷◌, ◌++◌, text_key,
}
use rdsctl.Base.Map
use rdsctl.Base.Map.{Map}
use rdsctl.Errors.{io, Result, ok, err}
use rdsctl.Fence.{Fence}
use rdsctl.State.{fence_of, Op, noop, lease_grant, lease_renew, lease_release, StateMachine}
use rdsctl.Log.{last_index}
use rdsctl.Raft.{timeout_now, Outbound, Node, Env}
use rdsctl.Raft.Config.{others}
use rdsctl.Raft.Timers.{reset_election_deadline}
use rdsctl.Raft.Election.{Handled, become_follower}
use rdsctl.Raft.Replication.{broadcast_append}
use rdsctl.Raft.Replication.Leader.{append_local}
use rdsctl.Raft.Drive.{leads}

abbrev is_better : ℕ → Option (Text × ℕ) → Bool
is_better m none = true
is_better m (some (v, best)) = ltb best m

-- The loop that chooses the successor: the first of the peers with the greatest match index.
pub best_of : Map Text ℕ → List Text → Option (Text × ℕ) → Option (Text × ℕ)
best_of matches [] best = best
best_of matches (v ∷ vs) best =
    let m = unwrap_or (Map.get v matches) 0 in
    best_of matches vs (if is_better m best then some (v, m) else best)

module _ {Value : Type 0} (to_json : Op Value → List ℕ) where
  -- The order to the successor, if it has the whole log.
  pub transfer : Node Value → Option (Text × ℕ) → List Outbound
  transfer n none = []
  transfer n (some (t, m)) =
      if leb (last_index n.log) (unwrap_or (Map.get t n.match_index) 0)
      then record { to = t; msg = timeout_now n.hard.current_term n.cfg.node_id; critical = false }
        ∷ []
      else []

  pub resigned : ℕ → List Outbound → Node Value × Bool → Handled Value
  resigned now outs (n, false) = (n, err io)
  resigned now outs (n, true) =
      let n' = reset_election_deadline now n in
      (
        record n' {
          election_deadline_ms = add64 now (saturating_mul n.cfg.election_timeout_high 2);
        },
        ok outs,
      )

  -- `step_down`.
  unfoldable pub step_down : Env → Node Value → Handled Value
  unfolding best_of transfer resigned
  step_down env n =
      if not (leads n.role)
      then (n, ok [])
      else (let n' = (append_local to_json noop env.append_ok n).0 in
          let outs =
            broadcast_append n' env ++ transfer n' (best_of n'.match_index (others n'.cfg) none) in
          resigned env.now outs (become_follower n'.hard.current_term none env.adopt_write n'))

  -- `propose_lease_grant`, `propose_lease_renew` and `propose_lease_release`: the operation carries the
  -- leader's clock.
  unfoldable pub propose_lease_grant : Text → Text → ℕ → Env → Node Value → Node Value × Result ℕ
  propose_lease_grant instance_id holder ttl_ms env n =
      append_local to_json (lease_grant instance_id holder ttl_ms env.now) env.append_ok n

  unfoldable pub propose_lease_renew : Text → Text → Env → Node Value → Node Value × Result ℕ
  propose_lease_renew instance_id holder env n =
      append_local to_json (lease_renew instance_id holder env.now) env.append_ok n

  unfoldable pub propose_lease_release : Text → Text → Env → Node Value → Node Value × Result ℕ
  propose_lease_release instance_id holder env n =
      append_local to_json (lease_release instance_id holder) env.append_ok n

-- `lease_fence`.
unfoldable pub lease_fence : {Value : Type 0} → StateMachine Value → ℕ → Text → Option Fence
lease_fence sm shard instance_id = elim (Map.get instance_id sm.leases) [
  | none ↦ none
  | some l ↦ some (fence_of l shard)
]
