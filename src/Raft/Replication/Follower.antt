-- ===== src/Raft/Replication/Follower.antt =====
-- src/ha/raft.rs: the follower's side of replication.
pub mod Storing
pub mod Cores
use rdsctl.Base.{
  ltb, ◌==◌, if◌then◌else◌, is_some, Text, ℕ, ◌-◌, min, max, Bool, true, false, ◌&&◌, not, Option,
  none, some, List, [], ◌∷◌, text_key,
}
use rdsctl.Base.Map
use rdsctl.Errors.{HaError, io, ok, err}
use rdsctl.State.{Op}
use rdsctl.Log.{
  kind_entry, PendingEntry, Log, last_index, first_index, get, term_at, append_batch,
  truncate_suffix,
}
use rdsctl.Raft.{EntryMeta, AppendRequest, append_entries_resp, Outbound, Node, Env}
use rdsctl.Raft.Timers.{reset_election_deadline}
use rdsctl.Raft.Skew.{observe_clock, observe_peer_skew}
use rdsctl.Raft.Election.{Handled, become_follower}
use rdsctl.Raft.Replication.{is_term, apply_committed}

-- The entries whose index the log does not hold.
missing : Log → List EntryMeta → List PendingEntry
missing l [] = []
missing l (e ∷ es) =
    let rest = missing l es in
    if is_some (get l e.index)
    then rest
    else record { kind = kind_entry; term = e.term; index = e.index; payload = e.op_json } ∷ rest

-- Only the first entry is compared with the log: a different term there cuts the suffix.
cut_conflict : Log → EntryMeta → Bool → Log × Option HaError
cut_conflict l e disk = elim (term_at l e.index) [
  | none ↦ (l, none)
  | some t ↦ if e.term == t then (l, none) else truncate_suffix l e.index disk
]

-- The log, the error, and whether the error is that of the append.
abbrev pub Stored : Type 0
Stored = Log × Option HaError × Bool

append_missing : List EntryMeta → Bool → Log × Option HaError → Stored
unfolding missing
append_missing es disk (l, some e) = (l, some e, false)
append_missing es disk (l, none) =
    let (l', failure) = append_batch l (missing l es) disk in (l', failure, true)

-- The entries of a request, put into the log.
unfoldable pub store_entries : Log → List EntryMeta → Env → Stored
unfolding cut_conflict append_missing
store_entries l [] env = (l, none, false)
store_entries l (e ∷ es) env =
    append_missing (e ∷ es) env.append_ok (cut_conflict l e env.truncate_ok)

module _ {Value : Type 0} (decode : List ℕ → Option (Op Value)) where
  unfoldable pub append_resp : Node Value → Text → Bool → ℕ → Option ℕ → ℕ → ℕ → Outbound
  append_resp n to accepted matched conflict echo now = record {
    to = to;
    msg = append_entries_resp (record {
      term = n.hard.current_term;
      follower_id = n.cfg.node_id;
      success = accepted;
      match_index = matched;
      conflict_index = conflict;
      sender_ms = now;
      echo_ms = echo;
    });
    critical = false;
  }

  -- The entry before the new ones must be in the log, or end the snapshot, with the same term.
  unfoldable pub prev_matches : AppendRequest → Node Value → Bool
  prev_matches m n =
      if m.prev_log_index == 0
      then true
      else if m.prev_log_index == n.snapshot_index
      then n.snapshot_term == m.prev_log_term
      else is_term m.prev_log_term (term_at n.log m.prev_log_index)

  -- The commit index follows the leader's, within the log.
  advance_to : ℕ → Node Value → Node Value
  unfolding apply_committed
  advance_to new_commit n =
      if ltb n.commit_index new_commit
      then apply_committed decode (record n { commit_index = new_commit })
      else n

  stored : AppendRequest → Env → Stored → Node Value → Handled Value
  unfolding advance_to append_resp
  stored m env (l, some e, in_append) n =
      (record n { log = l; fsync_ok = n.fsync_ok && not in_append }, err e)
  stored m env (l, none, in_append) n =
      let n' = advance_to (min m.leader_commit (last_index l)) (record n { log = l }) in
      (n', ok (append_resp n' m.leader_id true (last_index l) none m.sender_ms env.now ∷ []))

  accept_request : AppendRequest → Env → Node Value → Handled Value
  unfolding stored prev_matches store_entries
  accept_request m env n =
      let conflict = min (max (first_index n.log - 1) 1) (max m.prev_log_index 1) in
      if prev_matches m n
      then stored m env (store_entries n.log m.entries env) n
      else (n, ok (append_resp n m.leader_id false 0 (some conflict) m.sender_ms env.now ∷ []))

  followed : AppendRequest → Env → Node Value × Bool → Handled Value
  unfolding accept_request reset_election_deadline
  followed m env (n, false) = (n, err io)
  followed m env (n, true) =
      accept_request m env
        (reset_election_deadline env.now (record n { last_heartbeat_ms = env.now }))

  observe_leader : AppendRequest → Env → Node Value → Node Value
  observe_leader m env n =
      if ltb 0 m.peer_skew_ms
      then observe_peer_skew m.leader_id m.peer_skew_ms env.now n
      else observe_clock m.leader_id m.sender_ms env.now n

  -- The branch of `handle_inner` for `AppendEntries`.
  unfoldable pub handle_append_entries : AppendRequest → Env → Node Value → Handled Value
  unfolding followed observe_leader become_follower
  handle_append_entries m env n =
      let n' =
        observe_leader m env
          (record n { peer_ack_ms = Map.insert m.leader_id env.now n.peer_ack_ms }) in
      if ltb m.term n.hard.current_term
      then (
        n',
        ok (append_resp n' m.leader_id false 0 (some (last_index n.log)) m.sender_ms env.now ∷ []),
      )
      else followed m env (become_follower m.term (some m.leader_id) env.adopt_write n')
