-- ===== src/Raft/Handle.antt =====
-- src/ha/raft.rs: `handle_inner` and `handle`.
pub mod Cores
pub mod Unelected
use rdsctl.Base.{ltb, if◌then◌else◌, Text, Bool, true, false, ◌&&◌, not, none, List, []}
use rdsctl.Errors.{io, ok, err}
use rdsctl.Raft.{
  Message, request_vote, request_vote_resp, append_entries, append_entries_resp, install_snapshot,
  install_snapshot_resp, timeout_now, term_of, Outbound, Node, Env,
}
use rdsctl.Raft.Election.{Handled, become_follower, handle_request_vote}
use rdsctl.Raft.Replication.Leader.{handle_vote_resp, handle_append_resp}
use rdsctl.Raft.Replication.Follower.{handle_append_entries}
use rdsctl.Raft.Drive.{handle_timeout_now, handle_snapshot_resp}
use rdsctl.Raft.Snapshots.{Codec, handle_install_snapshot}

-- A pre-vote does not raise the term.
abbrev pub raises_term : Message → Bool
raises_term (request_vote m) = not m.is_pre_vote
raises_term _ = true

module _ {Value : Type 0} (codec : Codec Value) where
  -- The match on the message.
  unfoldable pub dispatch : Text → Message → Env → Node Value → Handled Value
  dispatch from (request_vote m) env n = handle_request_vote from m env n
  dispatch from (request_vote_resp m) env n = handle_vote_resp codec.of_op m env n
  dispatch from (append_entries m) env n = handle_append_entries codec.op_of m env n
  dispatch from (append_entries_resp m) env n = handle_append_resp codec.op_of m env n
  dispatch from (install_snapshot term who json) env n =
      handle_install_snapshot codec term who json env n
  dispatch from (install_snapshot_resp term who success index) env n =
      handle_snapshot_resp term who success index env n
  dispatch from (timeout_now term who) env n = handle_timeout_now term env n

  unfoldable pub dispatched : Text → Message → Env → Node Value × Bool → Handled Value
  unfolding dispatch
  dispatched from m env (n, true) = dispatch from m env n
  dispatched from m env (n, false) = (n, err io)

  -- The step on terms that comes before the match.
  unfoldable pub meet_term : Message → Env → Node Value → Node Value × Bool
  meet_term m env n =
      if ltb n.hard.current_term (term_of m) && raises_term m
      then become_follower (term_of m) none env.adopt_write n
      else (n, true)

  -- `handle_inner`.
  unfoldable pub handle_inner : Text → Message → Env → Node Value → Handled Value
  unfolding dispatched meet_term
  handle_inner from m env n = dispatched from m env (meet_term m env n)

  unfoldable pub delivered : Handled Value → Node Value × List Outbound
  delivered (n, ok outs) = (n, outs)
  delivered (n, err e) = (record n { fsync_ok = false }, [])

  -- `handle`.
  unfoldable pub handle : Text → Message → Env → Node Value → Node Value × List Outbound
  unfolding delivered handle_inner
  handle from m env n = delivered (handle_inner from m env n)
