-- ===== src/Examples/Nodes.antt =====
-- Concrete nodes, votes and configurations of src/ha/raft.rs.
use rdsctl.Log.Chain.{IsChained}
use rdsctl.Raft.Replication.Follower.{handle_append_entries}
use rdsctl.Raft.Replication.Follower.Storing.{handle_append_entries-IsChained}
use rdsctl.Base.Map
use rdsctl.Base.{
  Text, codes, text_eq, ℕ, ◌+◌, ◌-◌, ◌≡◌, refl, true, false, not, Option, none, List, [], ◌∷◌,
  arith, text_key,
}
use rdsctl.State.{Op, new}
use rdsctl.State.Run.{apply_all}
use rdsctl.Log.{kind_entry, Record, last_index, last_term, get, pending_record}
use rdsctl.Raft.{follower, leader, idle, RaftConfig, VoteRequest, AppendRequest, Node, synced, Env}
use rdsctl.Raft.Skew.{observe_clock}
use rdsctl.Raft.Config.{new_config, majority, others, mem}
use rdsctl.Raft.Election.{handle_request_vote}
use rdsctl.Raft.Election.Votes.{Granted, vote_is_durable, stay, one_vote_per_term}
use rdsctl.Raft.Replication.{apply_committed, advance_commit}
use rdsctl.Raft.Replication.Commit.{IsGreatest, advance_commit-IsGreatest}
use rdsctl.Raft.Replication.Applying.{committed, apply_committed_lem}
use rdsctl.Raft.Drive.{quorum_ok, can_serve_linearizable_read}
use rdsctl.Raft.Drive.Laws.{HeardOf, read_meets}

abbrev pub ana : Text
ana = codes "a"

abbrev pub bob : Text
bob = codes "b"

abbrev pub eve : Text
eve = codes "e"

abbrev pub three_voters : RaftConfig
three_voters = new_config ana 1 (ana ∷ bob ∷ eve ∷ [])

abbrev entry : Record
entry = pending_record 1 [] (record { kind = kind_entry; term = 1; index = 1; payload = [] })

abbrev pub follows : Node ℕ
follows = record {
  cfg = three_voters;
  log = record { shard = 1; entries = entry ∷ []; seed_hash = [] };
  sm = new 1 1000;
  hard = record { current_term = 1; voted_for = none };
  disk_hard = record { current_term = 1; voted_for = none };
  role = follower;
  commit_index = 0;
  leader_id = none;
  votes = [];
  pre_votes = [];
  campaign = idle;
  election_deadline_ms = 0;
  last_heartbeat_ms = 0;
  next_index = [];
  match_index = (ana, 1) ∷ (bob, 1) ∷ [];
  peer_ack_ms = [];
  peer_offset_samples = [];
  results = [];
  fsync_ok = true;
  rng = 1;
  snapshot_index = 0;
  snapshot_term = 0;
}

abbrev pub env : Env
env = record {
  now = 10;
  adopt_write = synced;
  vote_write = synced;
  truncate_ok = true;
  append_ok = true;
  snapshot_json = none;
  sync_ok = true;
  save_ok = true;
  compact_ok = true;
}

abbrev ask : VoteRequest
ask = record {
  term = 1;
  candidate_id = bob;
  last_log_index = 1;
  last_log_term = 1;
  is_pre_vote = false;
  sender_ms = 0;
}

vote_is_durable_example : Granted ask follows (handle_request_vote bob ask env follows).0
unfolding handle_request_vote new observe_clock last_term last_index text_eq
vote_is_durable_example = vote_is_durable bob ask env follows refl refl

one_vote_per_term_example : bob ≡ bob
unfolding handle_request_vote new observe_clock last_term last_index text_eq
one_vote_per_term_example =
    one_vote_per_term bob bob ask ask env env follows (handle_request_vote bob ask env follows).0
      refl refl (stay (handle_request_vote bob ask env follows).0) refl refl refl

abbrev pub no_json : List ℕ → Option (Op ℕ)
no_json bytes = none

advance_commit-IsGreatest_example :
    IsGreatest follows.log 1
      (majority three_voters)
      follows.match_index
      (follows.commit_index + 1)
      (last_index follows.log + 1)
      0
      (advance_commit no_json follows).commit_index
unfolding new last_index
advance_commit-IsGreatest_example = advance_commit-IsGreatest no_json follows (omega arith)

abbrev ahead : Node ℕ
ahead = record follows { commit_index = 1 }

apply_committed_lem_example :
    ((apply_committed no_json ahead).sm
      ≡ apply_all
          (committed no_json ahead.log (1 - ahead.sm.applied_index) (ahead.sm.applied_index + 1))
          ahead.sm)
    × ((apply_committed no_json ahead).sm.applied_index ≡ 1)
unfolding new get
apply_committed_lem_example =
    apply_committed_lem no_json ahead (omega arith) (omega arith) ((entry, refl), tt)

-- A leader that heard one of its two peers.
abbrev leads_three : Node ℕ
leads_three = record follows { role = leader; peer_ack_ms = (bob, 5) ∷ [] }

read_meets_example :
    (leads_three.role ≡ leader)
    × ((v : Text) × (mem v three_voters.voters ≡ true)
        × HeardOf leads_three 10 v
        × (not (text_eq v ana) ≡ true))
unfolding can_serve_linearizable_read quorum_ok majority new_config text_eq others Map.get
read_meets_example = read_meets leads_three 10 (λ v. not (text_eq v ana)) refl refl (omega arith)

abbrev blank : Node ℕ
blank = record follows { log = record { shard = 1; entries = []; seed_hash = [] } }

abbrev send_one : AppendRequest
send_one = record {
  term = 2;
  leader_id = bob;
  prev_log_index = 0;
  prev_log_term = 0;
  entries = record { term = 1; index = 1; op_json = [] } ∷ [];
  leader_commit = 1;
  sender_ms = 0;
  peer_skew_ms = 0;
}

handle_append_entries-IsChained_example :
    IsChained (handle_append_entries no_json send_one env blank).0.log
handle_append_entries-IsChained_example =
    handle_append_entries-IsChained no_json send_one env blank (tt, tt)
