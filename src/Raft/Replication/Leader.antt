-- ===== src/Raft/Replication/Leader.antt =====
-- src/ha/raft.rs: the leader's side of replication, and the answers to its requests.
pub mod Cores
use rdsctl.Base.{
  ltb, leb, ◌==◌, if◌then◌else◌, unwrap_or, length, add64, Text, ℕ, min, max, Bool, true, false,
  ◌||◌, not, Option, none, some, List, [], ◌∷◌, text_key,
}
use rdsctl.Base.Map
use rdsctl.Base.Map.{Map}
use rdsctl.Errors.{HaError, io, not_leader, Result, ok, err}
use rdsctl.State.{Op, noop}
use rdsctl.Log.{kind_entry, Log, last_index, append_batch}
use rdsctl.Raft.{
  Role, follower, candidate, leader, Campaign, idle, pre_vote, vote, VoteResponse, AppendResponse,
  Node, Env,
}
use rdsctl.Raft.Config.{majority}
use rdsctl.Raft.Skew.{observe_clock_rtt}
use rdsctl.Raft.Election.{Handled, become_follower, start_election}
use rdsctl.Raft.Replication.{advance_commit, append_for, broadcast_append}

set_each : List Text → ℕ → Map Text ℕ → Map Text ℕ
set_each [] x m = m
set_each (v ∷ vs) x m = set_each vs x (Map.insert v x m)

abbrev pub is_candidate : Role → Bool
is_candidate candidate = true
is_candidate _ = false

module _ {Value : Type 0} (to_json : Op Value → List ℕ) where
  pub appended : ℕ → Log × Option HaError → Node Value → Node Value × Result ℕ
  appended index (l, some e) n = (record n { fsync_ok = false }, err e)
  appended index (l, none) n =
      (record n { log = l; match_index = Map.insert n.cfg.node_id index n.match_index }, ok index)

  append_as : Role → Op Value → Bool → Node Value → Node Value × Result ℕ
  unfolding appended
  append_as leader op disk n =
      let index = add64 (last_index n.log) 1 in
      appended index
        (append_batch n.log
          (record {
            kind = kind_entry;
            term = n.hard.current_term;
            index = index;
            payload = to_json op;
          }
            ∷ [])
          disk)
        n
  append_as follower op disk n = (n, err (not_leader n.leader_id))
  append_as candidate op disk n = (n, err (not_leader n.leader_id))

  -- `append_local`, which is `propose` too.
  unfoldable pub append_local : Op Value → Bool → Node Value → Node Value × Result ℕ
  unfolding append_as
  append_local op disk n = append_as n.role op disk n

  pub take_office : ℕ → Node Value → Node Value
  unfolding set_each
  take_office now n =
      let last = last_index n.log in
      record n {
        role = leader;
        leader_id = some n.cfg.node_id;
        next_index = set_each n.cfg.voters (add64 last 1) [];
        match_index = set_each n.cfg.voters 0 [];
        last_heartbeat_ms = now;
        peer_ack_ms = Map.insert n.cfg.node_id now n.peer_ack_ms;
      }

  pub announce : Env → Node Value × Result ℕ → Handled Value
  announce env (n, ok i) = (n, ok (broadcast_append n env))
  announce env (n, err e) = (n, err e)

  -- `become_leader`: the first entry of the term is a `noop`.
  unfoldable pub become_leader : Env → Node Value → Handled Value
  unfolding take_office announce append_local broadcast_append
  become_leader env n = announce env (append_local noop env.append_ok (take_office env.now n))

  pub count_pre_vote : Text → Env → Node Value → Handled Value
  count_pre_vote voter env n =
      let n' = record n { pre_votes = Map.insert voter tt n.pre_votes } in
      if leb (majority n.cfg) (length n'.pre_votes)
      then start_election env.now env.vote_write n'
      else (n', ok [])

  pub count_vote : Text → Env → Node Value → Handled Value
  count_vote voter env n =
      let n' = record n { votes = Map.insert voter tt n.votes } in
      if leb (majority n.cfg) (length n'.votes) then become_leader env n' else (n', ok [])

  pub count : Campaign → Text → Env → Node Value → Handled Value
  unfolding count_pre_vote count_vote
  count pre_vote voter env n = count_pre_vote voter env n
  count vote voter env n = count_vote voter env n
  count idle voter env n = (n, ok [])

  -- The branch of `handle_inner` for `RequestVoteResp`.
  unfoldable pub handle_vote_resp : VoteResponse → Env → Node Value → Handled Value
  unfolding count
  handle_vote_resp m env n =
      let n' =
        observe_clock_rtt m.voter m.sender_ms env.now m.echo_ms
          (record n { peer_ack_ms = Map.insert m.voter env.now n.peer_ack_ms }) in
      if not (m.term == n.hard.current_term) || not m.granted
      then (n', ok [])
      else if not (is_candidate n.role)
      then (n', ok [])
      else count n.campaign m.voter env n'

module _ {Value : Type 0} (decode : List ℕ → Option (Op Value)) where
  -- A follower that accepted, and one that refused.
  pub acknowledged : AppendResponse → Node Value → Handled Value
  unfolding advance_commit
  acknowledged m n = (
    advance_commit decode (record n {
      match_index = Map.insert m.follower_id m.match_index n.match_index;
      next_index = Map.insert m.follower_id (add64 m.match_index 1) n.next_index;
    }),
    ok [],
  )

  pub declined : AppendResponse → Env → Node Value → Handled Value
  unfolding append_for
  declined m env n =
      let hint = unwrap_or m.conflict_index 1 in
      let cur = unwrap_or (Map.get m.follower_id n.next_index) (add64 (last_index n.log) 1) in
      let next = max (max (min cur hint) (add64 n.snapshot_index 1)) 1 in
      let n' = record n { next_index = Map.insert m.follower_id next n.next_index } in
      (n', ok (append_for n' m.follower_id env))

  abbrev pub is_leader : Role → Bool
  is_leader leader = true
  is_leader _ = false

  pub stepped_down : Node Value × Bool → Handled Value
  stepped_down (n, true) = (n, ok [])
  stepped_down (n, false) = (n, err io)

  -- The branch of `handle_inner` for `AppendEntriesResp`.
  unfoldable pub handle_append_resp : AppendResponse → Env → Node Value → Handled Value
  unfolding acknowledged declined stepped_down become_follower
  handle_append_resp m env n =
      let n' =
        observe_clock_rtt m.follower_id m.sender_ms env.now m.echo_ms
          (record n { peer_ack_ms = Map.insert m.follower_id env.now n.peer_ack_ms }) in
      if ltb n.hard.current_term m.term
      then stepped_down (become_follower m.term none env.adopt_write n')
      else if not (is_leader n.role) || not (m.term == n.hard.current_term)
      then (n', ok [])
      else if m.success
      then acknowledged m n'
      else declined m env n'
