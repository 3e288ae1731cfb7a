-- ===== src/Raft.antt =====
-- src/ha/raft.rs: the data of a node of the consensus core. JSON texts (serde_json) are lists of
-- bytes, and the JSON forms of operations a parameter.
pub mod Config
pub mod Timers
pub mod Skew
pub mod Election
pub mod Replication
pub mod Drive
pub mod Snapshots
pub mod Handle
pub mod StepDown
pub mod Safety
pub mod Open
pub mod Cluster
use rdsctl.Base.{Text, ℕ, Bool, Option, List}
use rdsctl.Base.Map.{Map}
use rdsctl.State.{Applied, StateMachine}
use rdsctl.Log.{Log}

pub data Role : Type 0 where
  follower candidate leader : Role

-- The phase of a campaign.
pub data Campaign : Type 0 where
  idle pre_vote vote : Campaign

pub record RaftConfig : Type 0 where
  pub node_id : Text
  pub shard : ℕ
  pub voters : List Text
  pub election_timeout_low : ℕ
  pub election_timeout_high : ℕ
  pub heartbeat_ms : ℕ
  pub max_entries_per_append : ℕ
  pub snapshot_entry_threshold : ℕ
  pub max_skew_ms : ℕ

pub record EntryMeta : Type 0 where
  pub term : ℕ
  pub index : ℕ
  pub op_json : List ℕ

pub record VoteRequest : Type 0 where
  pub term : ℕ
  pub candidate_id : Text
  pub last_log_index : ℕ
  pub last_log_term : ℕ
  pub is_pre_vote : Bool
  pub sender_ms : ℕ

pub record VoteResponse : Type 0 where
  pub term : ℕ
  pub voter : Text
  pub granted : Bool
  pub sender_ms : ℕ
  pub echo_ms : ℕ

pub record AppendRequest : Type 0 where
  pub term : ℕ
  pub leader_id : Text
  pub prev_log_index : ℕ
  pub prev_log_term : ℕ
  pub entries : List EntryMeta
  pub leader_commit : ℕ
  pub sender_ms : ℕ
  pub peer_skew_ms : ℕ

pub record AppendResponse : Type 0 where
  pub term : ℕ
  pub follower_id : Text
  pub success : Bool
  pub match_index : ℕ
  pub conflict_index : Option ℕ
  pub sender_ms : ℕ
  pub echo_ms : ℕ

-- `Message`, with a record for the fields of each of the first four variants.
pub data Message : Type 0 where
  request_vote : VoteRequest → Message
  request_vote_resp : VoteResponse → Message
  append_entries : AppendRequest → Message
  append_entries_resp : AppendResponse → Message
  install_snapshot : (term : ℕ) (leader_id : Text) (snapshot_json : List ℕ) → Message
  install_snapshot_resp :
      (term : ℕ) (follower_id : Text) (success : Bool) (last_included_index : ℕ) → Message
  timeout_now : (term : ℕ) (leader_id : Text) → Message

-- `Message::term`.
unfoldable pub term_of : Message → ℕ
term_of (request_vote m) = m.term
term_of (request_vote_resp m) = m.term
term_of (append_entries m) = m.term
term_of (append_entries_resp m) = m.term
term_of (install_snapshot term l s) = term
term_of (install_snapshot_resp term f s i) = term
term_of (timeout_now term l) = term

pub record Outbound : Type 0 where
  pub to : Text
  pub msg : Message
  pub critical : Bool

pub record HardState : Type 0 where
  pub current_term : ℕ
  pub voted_for : Option Text

-- A `BTreeSet` of names.
abbrev pub NameSet : Type 0
NameSet = Map Text (Unit {0})

-- `ClockSample`; an `i64` is the 64-bit pattern that stands for it.
pub record ClockSample : Type 0 where
  pub offset_ms : ℕ
  pub raw_ms : ℕ
  pub rtt_ms : ℕ
  pub at_ms : ℕ

-- A node, with the hard state that its disk holds.
pub record Node (Value : Type 0) : Type 0 where
  pub cfg : RaftConfig
  pub log : Log
  pub sm : StateMachine Value
  pub hard : HardState
  pub disk_hard : HardState
  pub role : Role
  pub commit_index : ℕ
  pub leader_id : Option Text
  pub votes : NameSet
  pub pre_votes : NameSet
  pub campaign : Campaign
  pub election_deadline_ms : ℕ
  pub last_heartbeat_ms : ℕ
  pub next_index : Map Text ℕ
  pub match_index : Map Text ℕ
  pub peer_ack_ms : Map Text ℕ
  pub peer_offset_samples : Map Text (List ClockSample)
  pub results : Map ℕ (Applied Value)
  pub fsync_ok : Bool
  pub rng : ℕ
  pub snapshot_index : ℕ
  pub snapshot_term : ℕ

-- The outcome of writing a file and renaming it: done, failed before the rename, or failed after it.
pub data Write : Type 0 where
  synced failed renamed : Write

-- What the surroundings do during one call: the clock, and the disk's answers to the two writes of
-- the hard state, to the truncation and to the append of the log, to a sync, to the save of a snapshot
-- and to a compaction, and with the JSON of the snapshot that it holds, if it can be read.
pub record Env : Type 0 where
  pub now : ℕ
  pub adopt_write : Write
  pub vote_write : Write
  pub truncate_ok : Bool
  pub append_ok : Bool
  pub snapshot_json : Option (List ℕ)
  pub sync_ok : Bool
  pub save_ok : Bool
  pub compact_ok : Bool
