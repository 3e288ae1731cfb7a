-- ===== src/Raft/Open/Interrupted.antt =====
-- src/ha/raft.rs: a node that stopped between the writing of a snapshot and the compaction of its log.
use rdsctl.Base.{text_eq, ℕ, ◌≡◌, sym, ap, ◌∙◌, Bool, false, Option, none, some, List, ◌∷◌}
use rdsctl.Errors.{ok}
use rdsctl.State.{StateMachine}
use rdsctl.Log.{Record, Log}
use rdsctl.Log.Replay.{broken_chain, open_log}
use rdsctl.Log.Replay.Laws.{encode_all, Writable}
use rdsctl.Log.Replay.Refused.{open_log_other_seed}
use rdsctl.Snapshot.{SnapshotFile, seed_bytes, load}
use rdsctl.Raft.{RaftConfig, HardState}
use rdsctl.Raft.Config.{validate}
use rdsctl.Raft.Snapshots.{Codec}
use rdsctl.Raft.Open.{
  Disk, not_opened, origin_with, origin, with_log, with_origin, with_snapshot, with_config,
  open_node,
}

-- Files that hold a snapshot and, still, the log from before it.
pub record Interrupted {Value : Type 0} (codec : Codec Value) (cfg : RaftConfig) (disk : Disk)
    (snap : SnapshotFile) (sm : StateMachine Value) (l : Log) : Type 0 where
  pub accepted : validate cfg ≡ none
  pub snapshot_kept : load codec.snapshot_of disk.saved_snapshots ≡ ok (some snap)
  pub state_kept : codec.state_of snap.state_json ≡ some sm
  pub same_shard : l.shard ≡ cfg.shard
  pub log_kept : disk.log ≡ encode_all l.entries
  pub other_seed : text_eq l.seed_hash (seed_bytes snap) ≡ false

-- A node does not open again when its files hold a new snapshot and still the log from before it, a
-- log of at least one record that the source can write, with another seed than the snapshot's.
pub open_node-Interrupted :
    {Value : Type 0} (codec : Codec Value) (hard_of : List ℕ → Option HardState) (name : List ℕ)
    (cfg : RaftConfig) (now : ℕ) (cut sync : Bool) (disk : Disk) (snap : SnapshotFile)
    (sm : StateMachine Value) (start : ℕ) (l : Log) (r : Record) (rs : List Record)
    → Interrupted codec cfg disk snap sm l
    → Writable start l
    → l.entries ≡ r ∷ rs
    → open_node codec hard_of name cfg now cut sync disk ≡ not_opened (broken_chain r)
unfolding open_node with_config with_snapshot with_origin origin origin_with with_log
open_node-Interrupted codec hard_of name cfg now cut sync disk snap sm start l r rs i w e =
    let kept : disk.log ≡ encode_all (r ∷ rs) = i.log_kept ∙ ap encode_all e in
    let read = open_log_other_seed start l r rs cut sync (seed_bytes snap) w e i.other_seed in
    ap (with_config codec hard_of name cfg now cut sync disk) i.accepted
    ∙ ap (with_snapshot codec hard_of name cfg now cut sync disk) i.snapshot_kept
    ∙ ap
        (λ x.
          with_origin codec hard_of name cfg now cut sync disk (origin_with codec hard_of snap x))
        i.state_kept
    ∙ ap
        (with_log codec hard_of name cfg now
          (record {
            sm = sm;
            seed = seed_bytes snap;
            index = snap.last_included_index;
            term = snap.last_included_term;
          })
          disk)
        (ap (λ x. (open_log cfg.shard (seed_bytes snap) cut sync x).opening) kept
          ∙ ap (λ x. (open_log x (seed_bytes snap) cut sync (encode_all (r ∷ rs))).opening)
              (sym i.same_shard)
          ∙ ap (λ x. x.opening) read)
