-- ===== src/Raft/Config.antt =====
-- src/ha/raft.rs: `RaftConfig`.
pub mod Quorum
use rdsctl.Base.{
  ltb, ◌==◌, if◌then◌else◌, length, keep_if, any, saturating_mul, Text, text_eq, ℕ, ◌+◌, ◌/◌, ◌%◌,
  Bool, true, false, ◌||◌, not, Option, none, some, List, [], ◌∷◌,
}
use rdsctl.Raft.{RaftConfig}

-- `RaftConfig::new`.
unfoldable pub new_config : Text → ℕ → List Text → RaftConfig
new_config node_id shard voters = record {
  node_id = node_id;
  shard = shard;
  voters = voters;
  election_timeout_low = 1500;
  election_timeout_high = 3000;
  heartbeat_ms = 300;
  max_entries_per_append = 256;
  snapshot_entry_threshold = 50000;
  max_skew_ms = 1000;
}

unfoldable pub majority : RaftConfig → ℕ
majority c = length c.voters / 2 + 1

unfoldable pub others : RaftConfig → List Text
others c = keep_if (λ v. not (text_eq v c.node_id)) c.voters

abbrev pub mem : Text → List Text → Bool
mem v vs = any (λ w. text_eq w v) vs

-- The set of the members has as many names as the list.
pub all_distinct : List Text → Bool
all_distinct [] = true
all_distinct (v ∷ vs) = let rest = all_distinct vs in if mem v vs then false else rest

-- `validate`: the checks in their order; a fault stands for the message of its `HaError::Config`.
pub data ConfigFault : Type 0 where
  too_few even_count duplicate not_member zero_skew zero_heartbeat bad_timeout slow_heartbeat :
      ConfigFault

unfoldable pub validate : RaftConfig → Option ConfigFault
unfolding all_distinct
validate c =
    if ltb (length c.voters) 3
    then some too_few
    else if length c.voters % 2 == 0
    then some even_count
    else if not (all_distinct c.voters)
    then some duplicate
    else if not (mem c.node_id c.voters)
    then some not_member
    else if c.max_skew_ms == 0
    then some zero_skew
    else if c.heartbeat_ms == 0
    then some zero_heartbeat
    else if c.election_timeout_low == 0 || ltb c.election_timeout_high c.election_timeout_low
    then some bad_timeout
    else if ltb c.election_timeout_low (saturating_mul c.heartbeat_ms 2)
    then some slow_heartbeat
    else none
