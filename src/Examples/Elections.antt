-- ===== src/Examples/Elections.antt =====
-- A run of a cluster of src/ha/raft.rs that elects a leader.
use rdsctl.Base.{
  Text, text_eq, text_lt, text_eq_iff, ℕ, ◌≡◌, refl, ◌≢◌, inl, false, none, List, [], ◌∷◌, arith,
  text_key,
}
use rdsctl.State.{new}
use rdsctl.Raft.{follower, leader, timeout_now, term_of, Outbound, Node, failed, Env}
use rdsctl.Raft.Config.{new_config, majority, others}
use rdsctl.Raft.Drive.{tick}
use rdsctl.Raft.Snapshots.{Codec}
use rdsctl.Raft.Skew.{push_sample, observe_clock, observe_clock_rtt}
use rdsctl.Base.Map
use rdsctl.Raft.Replication.Leader.{become_leader, handle_vote_resp}
use mathlib.Core.Bool.{false≢true}
use rdsctl.Raft.Handle.Unelected.{Sends, unelected_leader}
use rdsctl.Raft.Drive.Asks.{pre_vote_request, tick_asks}
use rdsctl.Raft.Handle.{dispatch, dispatched, meet_term, handle_inner, delivered, handle}
use rdsctl.Raft.Cluster.{Cluster, In, after, delivers, ticks, Reach, begins, goes_on}
use rdsctl.Raft.Cluster.Elections.{election_safety}
use rdsctl.Raft.Election.{
  become_follower, start_pre_vote, send_to_others, start_election, handle_request_vote,
}
use rdsctl.Log.{last_index, last_term, append_batch}
use rdsctl.Examples.Nodes.{ana, bob, eve, follows, env}

abbrev no_codec : Codec ℕ
no_codec = record {
  op_of = λ bytes. none;
  of_op = λ op. [];
  state_of = λ bytes. none;
  of_state = λ sm. [];
  snapshot_of = λ bytes. none;
}

abbrev names : List Text
names = ana ∷ bob ∷ eve ∷ []

abbrev fresh : Text → Node ℕ
fresh i = record follows {
  cfg = new_config i 1 names;
  log = record { shard = 1; entries = []; seed_hash = [] };
  match_index = [];
}

abbrev start : Cluster ℕ
start = record { nodes = fresh; sent = [] }

start_reached : Reach no_codec names start
unfolding new_config
start_reached = begins start (record {
  none_sent = refl;
  named = λ i. refl;
  know_voters = λ i. refl;
  on_disk = λ i. refl;
  all_followers = λ i. refl;
})

-- The last message of a list.
abbrev newest : List Outbound → Outbound
newest [] = record { to = ana; msg = timeout_now 0 ana; critical = false }
newest (o ∷ os) = o

abbrev ticked : Cluster ℕ
ticked = after ana (tick env (start.nodes ana)) start

abbrev deliver : Cluster ℕ → Cluster ℕ
deliver s = let o = newest s.sent in after o.to (handle no_codec ana o.msg env (s.nodes o.to)) s

ticked_reached : Reach no_codec names ticked
unfolding new_config text_eq
ticked_reached = goes_on start ticked start_reached (ticks start ana env refl (omega arith))

pre_vote_reached : Reach no_codec names (deliver ticked)
unfolding tick start_pre_vote send_to_others others new_config text_eq last_index last_term new
    meet_term term_of
pre_vote_reached = goes_on ticked (deliver ticked) ticked_reached (
    delivers ticked ana (newest ticked.sent) env (inl refl) refl (refl, refl) (omega arith)
      (omega arith))

abbrev answered : Cluster ℕ
answered = deliver (deliver ticked)

pre_votes_reached : Reach no_codec names answered
unfolding tick start_pre_vote send_to_others others new_config text_eq last_index last_term new
    meet_term term_of handle handle_inner dispatched dispatch delivered handle_request_vote
    observe_clock push_sample
pre_votes_reached = goes_on (deliver ticked) answered pre_vote_reached (
    delivers (deliver ticked) ana (newest (deliver ticked).sent) env (inl refl) refl (refl, refl)
      (omega arith) (omega arith))

abbrev won : Cluster ℕ
won = deliver (deliver answered)

votes_reached : Reach no_codec names (deliver answered)
unfolding tick start_pre_vote send_to_others others new_config text_eq last_index last_term new
    meet_term term_of handle handle_inner dispatched dispatch delivered handle_request_vote
    observe_clock push_sample handle_vote_resp start_election majority Map.insert observe_clock_rtt
    text_lt become_follower
votes_reached = goes_on answered (deliver answered) pre_votes_reached (
    delivers answered ana (newest answered.sent) env (inl refl) refl (refl, refl) (omega arith)
      (omega arith))

won_reached : Reach no_codec names won
unfolding tick start_pre_vote send_to_others others new_config text_eq last_index last_term new
    meet_term term_of handle handle_inner dispatched dispatch delivered handle_request_vote
    observe_clock push_sample handle_vote_resp start_election majority Map.insert observe_clock_rtt
    text_lt become_follower
won_reached = goes_on (deliver answered) won votes_reached (
    delivers (deliver answered) ana (newest (deliver answered).sent) env (inl refl) refl
      (refl, refl) (omega arith) (omega arith))

election_safety_example : ana ≡ ana
unfolding tick start_pre_vote send_to_others others new_config text_eq last_index last_term new
    meet_term term_of handle handle_inner dispatched dispatch delivered handle_request_vote
    observe_clock push_sample handle_vote_resp start_election majority Map.insert observe_clock_rtt
    text_lt become_follower become_leader append_batch
election_safety_example = election_safety no_codec names won ana ana won_reached refl refl refl

bob_is_not_ana : bob ≢ ana
unfolding text_eq
bob_is_not_ana e = false≢true ((text_eq_iff bob ana).1 e)

follower_is_not_leader : follower ≢ leader
follower_is_not_leader e = cc

tick_asks_example : In (pre_vote_request follows env.now bob) (tick env follows).1
unfolding new_config text_eq
tick_asks_example =
    tick_asks env follows bob follower_is_not_leader (omega arith) refl bob_is_not_ana

-- The node leads term 1, and another node tells it to stand for term 5 while its disk fails.
abbrev leads_one : Node ℕ
leads_one = record follows { role = leader }

abbrev disk_fails : Env
disk_fails = record env { adopt_write = failed }

abbrev beats : Env
beats = record env { now = 1000000 }

unelected_leader_example :
    ((handle no_codec bob (timeout_now 5 bob) disk_fails leads_one).0.role ≡ leader)
    × ((handle no_codec bob (timeout_now 5 bob) disk_fails leads_one).0.disk_hard
        ≡ leads_one.disk_hard)
    × ((handle no_codec bob (timeout_now 5 bob) disk_fails leads_one).0.hard.voted_for ≡ none)
    × Sends bob 5 (tick beats (handle no_codec bob (timeout_now 5 bob) disk_fails leads_one).0).1
unfolding new_config text_eq term_of
unelected_leader_example =
    unelected_leader no_codec bob (timeout_now 5 bob) disk_fails beats leads_one bob refl refl
      (omega arith) refl (omega arith) refl bob_is_not_ana
