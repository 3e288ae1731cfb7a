-- ===== src/Raft/Drive.antt =====
-- src/ha/raft.rs: what drives a node besides votes and entries: `tick`, `flush`, `TimeoutNow`, the
-- answers to snapshots, and the tests of quorum and skew.
pub mod Laws
pub mod Cores
pub mod Asks
use rdsctl.Base.{
  ltb, leb, if◌then◌else◌, add64, saturating_mul, Text, ℕ, suc, ◌+◌, ◌-◌, max, Bool, true, false,
  ◌&&◌, not, Option, none, some, List, [], ◌∷◌, text_key,
}
use rdsctl.Base.Map
use rdsctl.Base.Map.{Map}
use rdsctl.Errors.{io, ok, err}
use rdsctl.Raft.{Role, leader, Campaign, pre_vote, Outbound, ClockSample, Node, Env}
use rdsctl.Raft.Config.{majority, others, mem}
use rdsctl.Raft.Timers.{reset_election_deadline}
use rdsctl.Raft.Skew.{clock_sample_ttl_ms, unsigned_abs, filtered}
use rdsctl.Raft.Election.{
  Handled, become_follower, start_pre_vote, send_to_others, request_of, start_election,
}
use rdsctl.Raft.Replication.{broadcast_append}

abbrev is_pre_vote_campaign : Campaign → Bool
is_pre_vote_campaign pre_vote = true
is_pre_vote_campaign _ = false

abbrev pub leads : Role → Bool
leads leader = true
leads _ = false

-- The body of the loops over the samples of one peer: those beyond the limit, and those in time.
count_samples : List ClockSample → ℕ → ℕ → ℕ × ℕ
count_samples [] limit now = (0, 0)
count_samples (s ∷ ss) limit now =
    let (over, fresh) = count_samples ss limit now in
    if leb (now - s.at_ms) clock_sample_ttl_ms
    then ((if ltb limit (unsigned_abs s.offset_ms) then suc over else over), suc fresh)
    else (over, fresh)

abbrev pub clock_violation_min_samples : ℕ
clock_violation_min_samples = 2

abbrev beyond : Option ℕ → ℕ → Bool
beyond none limit = false
beyond (some v) limit = ltb limit (unsigned_abs v)

-- The loop of `skew_exceeded` over the peers.
any_beyond : Map Text (List ClockSample) → ℕ → ℕ → Bool
unfolding count_samples
any_beyond [] limit now = false
any_beyond ((p, w) ∷ ps) limit now =
    if leb clock_violation_min_samples (count_samples w limit now).1
      && beyond (filtered w now) limit
    then true
    else any_beyond ps limit now

-- Whether a peer was heard within the window.
abbrev pub within : ℕ → ℕ → Option ℕ → Bool
within window now none = false
within window now (some t) = leb (now - t) window

-- The loop of `quorum_ok` over the other voters.
unfoldable pub count_alive : List Text → ℕ → ℕ → Map Text ℕ → ℕ
count_alive [] window now acks = 0
count_alive (o ∷ os) window now acks =
    let rest = count_alive os window now acks in
    if within window now (Map.get o acks) then suc rest else rest

module _ {Value : Type 0} where
  unfoldable pub lead_tick : Env → Node Value → Node Value × List Outbound
  lead_tick env n =
      if leb n.cfg.heartbeat_ms (env.now - n.last_heartbeat_ms)
      then (let n' = record n { last_heartbeat_ms = env.now } in (n', broadcast_append n' env))
      else (n, [])

  unfoldable pub wait_tick : Env → Node Value → Node Value × List Outbound
  wait_tick env n =
      let n' = start_pre_vote env.now n in
      if leb n.election_deadline_ms env.now
      then (if is_pre_vote_campaign n'.campaign
          then (n', send_to_others n' (request_of n' (add64 n'.hard.current_term 1) true env.now))
          else (n', []))
      else (n, [])

  -- `tick`.
  unfoldable pub tick : Env → Node Value → Node Value × List Outbound
  unfolding lead_tick wait_tick
  tick env n = if leads n.role then lead_tick env n else wait_tick env n

  -- `flush`.
  unfoldable pub flush : Env → Node Value → Node Value × List Outbound
  flush env n =
      let n' = record n { last_heartbeat_ms = env.now } in
      if leads n.role then (n', broadcast_append n' env) else (n, [])

  -- The branch of `handle_inner` for `TimeoutNow`, behind the common step on terms.
  unfoldable pub handle_timeout_now : ℕ → Env → Node Value → Handled Value
  handle_timeout_now term env n =
      if ltb term n.hard.current_term
      then (n, ok [])
      else if not (mem n.cfg.node_id n.cfg.voters)
      then (n, ok [])
      else start_election env.now env.vote_write (reset_election_deadline env.now n)

  pub follows_again : Node Value × Bool → Handled Value
  follows_again (n, true) = (n, ok [])
  follows_again (n, false) = (n, err io)

  -- The branch of `handle_inner` for `InstallSnapshotResp`.
  unfoldable pub handle_snapshot_resp : ℕ → Text → Bool → ℕ → Env → Node Value → Handled Value
  unfolding follows_again become_follower
  handle_snapshot_resp term follower_id success last_included_index env n =
      let n' = record n { peer_ack_ms = Map.insert follower_id env.now n.peer_ack_ms } in
      if ltb n.hard.current_term term
      then follows_again (become_follower term none env.adopt_write n')
      else if leads n.role && success
      then (
        record n' {
          match_index = Map.insert follower_id last_included_index n.match_index;
          next_index = Map.insert follower_id (add64 last_included_index 1) n.next_index;
        },
        ok [],
      )
      else (n', ok [])

  abbrev pub read_window : Node Value → ℕ
  read_window n =
      max (saturating_mul n.cfg.heartbeat_ms 4) (saturating_mul n.cfg.election_timeout_low 3)

  unfoldable pub quorum_ok : Node Value → ℕ → Bool
  unfolding count_alive
  quorum_ok n now =
      leb (majority n.cfg) (1 + count_alive (others n.cfg) (read_window n) now n.peer_ack_ms)

  unfoldable pub can_serve_linearizable_read : Node Value → ℕ → Bool
  can_serve_linearizable_read n now = leads n.role && quorum_ok n now

  -- `skew_exceeded`.
  unfoldable pub skew_exceeded : Node Value → ℕ → Bool
  unfolding any_beyond
  skew_exceeded n now = any_beyond n.peer_offset_samples n.cfg.max_skew_ms now
