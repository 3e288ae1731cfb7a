-- ===== src/Raft/Election.antt =====
-- src/ha/raft.rs: campaigns and votes. A handler returns the node and its outbound messages, or the
-- error that ends it.
pub mod Moves
pub mod Votes
pub mod Cores
use rdsctl.Base.{
  ltb, leb, ◌==◌, if◌then◌else◌, is_some, add64, Text, text_eq, ℕ, ◌-◌, Bool, true, false, ◌&&◌,
  not, Option, none, some, List, [], ◌∷◌, map, text_key,
}
use rdsctl.Base.Map
use rdsctl.Errors.{io, Result, ok, err}
use rdsctl.Log.{last_index, last_term}
use rdsctl.Raft.{
  Role, follower, candidate, leader, idle, pre_vote, vote, VoteRequest, Message, request_vote,
  request_vote_resp, Outbound, Node, Write, synced, failed, renamed, Env,
}
use rdsctl.Raft.Config.{others}
use rdsctl.Raft.Timers.{reset_election_deadline}
use rdsctl.Raft.Skew.{observe_clock}

abbrev pub Handled : Type 0 → Type 0
Handled Value = Node Value × Result (List Outbound)

-- The vote of the term is free, or was given to this candidate.
abbrev pub free_for : Option Text → Text → Bool
free_for none c = true
free_for (some v) c = text_eq v c

module _ {Value : Type 0} where
  -- `persist_hard_state`: the disk after a write with this outcome.
  unfoldable pub persist_hard_state : Write → Node Value → Node Value × Bool
  persist_hard_state synced n = (record n { disk_hard = n.hard }, true)
  persist_hard_state failed n = (n, false)
  persist_hard_state renamed n = (record n { disk_hard = n.hard }, false)

  -- The part of `become_follower` behind the write.
  pub settle : Option Text → Node Value → Node Value
  settle who n = record n {
    role = follower;
    campaign = idle;
    leader_id = who;
    votes = [];
    pre_votes = [];
  }

  pub settle_if : Option Text → Node Value × Bool → Node Value × Bool
  unfolding settle
  settle_if who (n, true) = (settle who n, true)
  settle_if who (n, false) = (n, false)

  pub adopt_term : ℕ → Node Value → Node Value
  adopt_term term n = record n { hard = record { current_term = term; voted_for = none } }

  -- `become_follower`: whether the hard state, if it changed, was written.
  unfoldable pub become_follower : ℕ → Option Text → Write → Node Value → Node Value × Bool
  unfolding settle_if adopt_term persist_hard_state
  become_follower term who w n =
      settle_if who (
        if ltb n.hard.current_term term
        then persist_hard_state w (adopt_term term n)
        else (n, true))

  unfoldable pub pre_vote_as : Role → ℕ → Node Value → Node Value
  unfolding reset_election_deadline
  pre_vote_as leader now n = reset_election_deadline now n
  pre_vote_as _ now n = record (reset_election_deadline now n) {
    role = candidate;
    campaign = pre_vote;
    leader_id = none;
    pre_votes = Map.insert n.cfg.node_id tt [];
    votes = [];
  }

  -- `start_pre_vote`.
  unfoldable pub start_pre_vote : ℕ → Node Value → Node Value
  unfolding pre_vote_as
  start_pre_vote now n = pre_vote_as n.role now n

  unfoldable pub send_to_others : Node Value → Message → List Outbound
  send_to_others n m = map (λ v. record { to = v; msg = m; critical = true }) (others n.cfg)

  abbrev pub request_of : Node Value → ℕ → Bool → ℕ → Message
  request_of n term is_pre now = request_vote (record {
    term = term;
    candidate_id = n.cfg.node_id;
    last_log_index = last_index n.log;
    last_log_term = last_term n.log;
    is_pre_vote = is_pre;
    sender_ms = now;
  })

  -- The node's vote for itself in the next term.
  stand : Node Value → Node Value
  stand n = record n {
    hard = record { current_term = add64 n.hard.current_term 1; voted_for = some n.cfg.node_id };
  }

  campaign_on : ℕ → Node Value → Node Value
  unfolding reset_election_deadline
  campaign_on now n = reset_election_deadline now (record n {
    role = candidate;
    campaign = vote;
    leader_id = none;
    votes = Map.insert n.cfg.node_id tt [];
    pre_votes = [];
  })

  started : ℕ → Node Value × Bool → Handled Value
  unfolding campaign_on
  started now (n, true) =
      let n' = campaign_on now n in
      (n', ok (send_to_others n' (request_of n' n'.hard.current_term false now)))
  started now (n, false) = (n, err io)

  -- `start_election`.
  unfoldable pub start_election : ℕ → Write → Node Value → Handled Value
  unfolding stand started persist_hard_state send_to_others
  start_election now w n = started now (persist_hard_state w (stand n))

  unfoldable pub log_is_up_to_date : Node Value → ℕ → ℕ → Bool
  log_is_up_to_date n cand_last_index cand_last_term =
      let my_term = last_term n.log in
      if not (cand_last_term == my_term)
      then ltb my_term cand_last_term
      else leb (last_index n.log) cand_last_index

  abbrev reply_vote : Node Value → VoteRequest → Bool → ℕ → List Outbound
  reply_vote n m is_granted now =
      record {
        to = m.candidate_id;
        msg = request_vote_resp (record {
          term = n.hard.current_term;
          voter = n.cfg.node_id;
          granted = is_granted;
          sender_ms = now;
          echo_ms = m.sender_ms;
        });
        critical = false;
      }
      ∷ []

  leader_alive : Node Value → ℕ → Bool
  leader_alive n now =
      is_some n.leader_id && ltb (now - n.last_heartbeat_ms) n.cfg.election_timeout_low

  -- The answer to a pre-vote.
  answer_pre_vote : VoteRequest → ℕ → Node Value → Handled Value
  unfolding leader_alive log_is_up_to_date
  answer_pre_vote m now n =
      let is_granted =
        ltb n.hard.current_term m.term
        && log_is_up_to_date n m.last_log_index m.last_log_term
        && not (leader_alive n now) in
      (n, ok (reply_vote n m is_granted now))

  -- The vote is written before the answer goes out.
  pub grant_written : VoteRequest → ℕ → Node Value × Bool → Handled Value
  unfolding reset_election_deadline
  grant_written m now (n, true) =
      let n' = reset_election_deadline now n in (n', ok (reply_vote n' m true now))
  grant_written m now (n, false) = (n, err io)

  pub cast : Text → Node Value → Node Value
  cast c n = record n { hard = record n.hard { voted_for = some c } }

  -- The rule for votes: the term is the node's own, the vote is free, and the candidate's log is not
  -- behind.
  pub may_vote : VoteRequest → Node Value → Bool
  unfolding log_is_up_to_date
  may_vote m n =
      m.term == n.hard.current_term
      && free_for n.hard.voted_for m.candidate_id
      && log_is_up_to_date n m.last_log_index m.last_log_term

  pub answer_vote : VoteRequest → Env → Node Value → Handled Value
  unfolding grant_written cast may_vote persist_hard_state
  answer_vote m env n =
      if ltb m.term n.hard.current_term
      then (n, ok (reply_vote n m false env.now))
      else if may_vote m n
      then grant_written m env.now (persist_hard_state env.vote_write (cast m.candidate_id n))
      else (n, ok (reply_vote n m false env.now))

  -- The branch of `handle_inner` for `RequestVote`, behind the common step on terms.
  unfoldable pub handle_request_vote : Text → VoteRequest → Env → Node Value → Handled Value
  unfolding answer_pre_vote answer_vote
  handle_request_vote from m env n =
      let n' =
        observe_clock from m.sender_ms env.now
          (record n { peer_ack_ms = Map.insert from env.now n.peer_ack_ms }) in
      if m.is_pre_vote then answer_pre_vote m env.now n' else answer_vote m env n'
