-- ===== src/Raft/Open.antt =====
-- src/ha/raft.rs: opening a node from its files, behind the creation of its directory.
pub mod Laws
pub mod Interrupted
use Prim.Native.Nat.{bit_xor}
use rdsctl.Base.{u64_mod, codes, ℕ, ◌*◌, ◌%◌, Bool, true, Option, none, some, List, [], ◌∷◌}
use rdsctl.Errors.{HaError, io, corrupt, Result, ok, err}
use rdsctl.State.{StateMachine, new}
use rdsctl.Log.{Record}
use rdsctl.Log.Replay.{zero_hash, Opening, opened, fails, endless, open_log}
use rdsctl.Snapshot.{SnapshotFile, seed_bytes, Files, load}
use rdsctl.Raft.{follower, idle, RaftConfig, HardState, Node}
use rdsctl.Raft.Config.{ConfigFault, validate}
use rdsctl.Raft.Timers.{reset_election_deadline}
use rdsctl.Raft.Replication.{apply_committed}
use rdsctl.Raft.Snapshots.{Codec}

abbrev fnv_bytes : List ℕ → ℕ → ℕ
fnv_bytes [] h = h
fnv_bytes (b ∷ bs) h = fnv_bytes bs (bit_xor h b * 0x100000001B3 % u64_mod)

-- `seed_rng`, from the bytes of the node's name.
unfoldable pub seed_rng : List ℕ → ℕ → ℕ
seed_rng name shard =
    bit_xor (fnv_bytes name 0xCBF29CE484222325) (shard * 0x9E3779B97F4A7C15 % u64_mod)

-- The files of a node.
pub record Disk : Type 0 where
  pub saved_snapshots : Files
  pub log : List ℕ
  pub hard_state : Option (List ℕ)

-- How opening a node ends.
pub data Opened (Value : Type 0) : Type 0 where
  bad_config : ConfigFault → Opened Value
  not_opened : HaError → Opened Value
  node : Node Value → Opened Value

-- What the snapshot gives: the state, the seed of the log, and the index and the term of the snapshot.
pub record Origin (Value : Type 0) : Type 0 where
  pub sm : StateMachine Value
  pub seed : List ℕ
  pub index : ℕ
  pub term : ℕ

module _ {Value : Type 0} (codec : Codec Value) (hard_of : List ℕ → Option HardState) where
  -- `read_hard_state`; the error of a file that does not parse carries no detail.
  unfoldable pub read_hard_state : Option (List ℕ) → Result HardState
  read_hard_state none = ok (record { current_term = 0; voted_for = none })
  read_hard_state (some raw) = elim (hard_of raw) [
    | none ↦ err (corrupt (codes "hard_state 解析失败"))
    | some h ↦ ok h
  ]

  pub origin_with : SnapshotFile → Option (StateMachine Value) → Result (Origin Value)
  origin_with snap none = err (corrupt (codes "快照状态机解析失败"))
  origin_with snap (some sm) = ok (record {
    sm = sm;
    seed = seed_bytes snap;
    index = snap.last_included_index;
    term = snap.last_included_term;
  })

  unfoldable pub origin : RaftConfig → Option SnapshotFile → Result (Origin Value)
  origin cfg none =
      ok (record { sm = new cfg.shard cfg.max_skew_ms; seed = zero_hash; index = 0; term = 0 })
  origin cfg (some snap) = origin_with snap (codec.state_of snap.state_json)

  -- The node, from all that was read.
  pub assembled : List ℕ → RaftConfig → ℕ → Origin Value → List Record → HardState → Node Value
  assembled name cfg now o entries hard = apply_committed codec.op_of (
      reset_election_deadline now (record {
        cfg = cfg;
        log = record { shard = cfg.shard; entries = entries; seed_hash = o.seed };
        sm = o.sm;
        hard = hard;
        disk_hard = hard;
        role = follower;
        commit_index = o.index;
        leader_id = none;
        votes = [];
        pre_votes = [];
        campaign = idle;
        election_deadline_ms = 0;
        last_heartbeat_ms = 0;
        next_index = [];
        match_index = [];
        peer_ack_ms = [];
        peer_offset_samples = [];
        results = [];
        fsync_ok = true;
        rng = seed_rng name cfg.shard;
        snapshot_index = o.index;
        snapshot_term = o.term;
      }))

  unfoldable pub with_hard :
      List ℕ → RaftConfig → ℕ → Origin Value → List Record → Result HardState → Opened Value
  with_hard name cfg now o entries (err e) = not_opened e
  with_hard name cfg now o entries (ok hard) = node (assembled name cfg now o entries hard)

  -- `endless` stands for no end.
  unfoldable pub with_log : List ℕ → RaftConfig → ℕ → Origin Value → Disk → Opening → Opened Value
  with_log name cfg now o disk (opened entries) =
      with_hard name cfg now o entries (read_hard_state disk.hard_state)
  with_log name cfg now o disk (fails e) = not_opened e
  with_log name cfg now o disk endless = not_opened io

  unfoldable pub with_origin :
      List ℕ → RaftConfig → ℕ → Bool → Bool → Disk → Result (Origin Value) → Opened Value
  with_origin name cfg now cut sync disk (err e) = not_opened e
  with_origin name cfg now cut sync disk (ok o) =
      with_log name cfg now o disk (open_log cfg.shard o.seed cut sync disk.log).opening

  unfoldable pub with_snapshot :
      List ℕ → RaftConfig → ℕ → Bool → Bool → Disk → Result (Option SnapshotFile) → Opened Value
  with_snapshot name cfg now cut sync disk (err e) = not_opened e
  with_snapshot name cfg now cut sync disk (ok snap) =
      with_origin name cfg now cut sync disk (origin cfg snap)

  unfoldable pub with_config :
      List ℕ → RaftConfig → ℕ → Bool → Bool → Disk → Option ConfigFault → Opened Value
  with_config name cfg now cut sync disk (some fault) = bad_config fault
  with_config name cfg now cut sync disk none =
      with_snapshot name cfg now cut sync disk (load codec.snapshot_of disk.saved_snapshots)

  -- `Node::open`: the bytes of the node's name, the configuration, the time, whether the log's file can
  -- be cut and synced, and the files.
  unfoldable pub open_node : List ℕ → RaftConfig → ℕ → Bool → Bool → Disk → Opened Value
  open_node name cfg now cut sync disk = with_config name cfg now cut sync disk (validate cfg)
