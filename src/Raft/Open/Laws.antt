-- ===== src/Raft/Open/Laws.antt =====
-- src/ha/raft.rs: what an opened node is.
use rdsctl.Base.{ℕ, ◌≡◌, sym, ap, subst, Bool, Option, none, some, List}
use rdsctl.Errors.{Result, ok, err}
use rdsctl.Log.{Record}
use rdsctl.Log.Replay.{Opening, opened, fails, endless, open_log}
use rdsctl.Snapshot.{SnapshotFile, load}
use rdsctl.Raft.{follower, RaftConfig, HardState, Node}
use rdsctl.Raft.Config.{ConfigFault, validate}
use rdsctl.Raft.Timers.{reset_election_deadline}
use rdsctl.Raft.Replication.Free.{apply_committed-core}
use rdsctl.Raft.Snapshots.{Codec}
use rdsctl.Raft.Open.{
  Disk, Opened, bad_config, not_opened, node, Origin, read_hard_state, origin, assembled, with_hard,
  with_log, with_origin, with_snapshot, with_config, open_node,
}
use rdsctl.Raft.Cluster.{Reopened}

module _ {Value : Type 0} where
  -- A node that was opened is a follower with this configuration and this hard state.
  IsFresh : RaftConfig → HardState → Opened Value → Type 0
  IsFresh cfg hard (node n) =
      (n.cfg.node_id ≡ cfg.node_id)
      × (n.cfg.voters ≡ cfg.voters)
      × (n.hard ≡ hard)
      × (n.disk_hard ≡ hard)
      × (n.role ≡ follower)
  IsFresh cfg hard (bad_config fault) = Unit
  IsFresh cfg hard (not_opened e) = Unit

module _ {Value : Type 0} (codec : Codec Value) (hard_of : List ℕ → Option HardState)
    (name : List ℕ) (cfg : RaftConfig) (now : ℕ) (hard : HardState) where
  assembled-IsFresh :
      (o : Origin Value) (entries : List Record)
      → IsFresh cfg hard (node (assembled codec hard_of name cfg now o entries hard))
  unfolding IsFresh assembled reset_election_deadline
  assembled-IsFresh o entries =
      let e = apply_committed-core codec.op_of _ in
      (
        ap (λ c. c.node_id) e,
        ap (λ c. c.voters) e,
        ap (λ c. c.hard) e,
        ap (λ c. c.disk_hard) e,
        ap (λ c. c.role) e,
      )

  with_hard-IsFresh :
      (o : Origin Value) (entries : List Record) (r : Result HardState)
      → r ≡ ok hard
      → IsFresh cfg hard (with_hard codec hard_of name cfg now o entries r)
  unfolding IsFresh with_hard
  with_hard-IsFresh o entries (err e) q = tt
  with_hard-IsFresh o entries (ok h) q =
      subst (λ x. IsFresh cfg hard (node (assembled codec hard_of name cfg now o entries x)))
        (sym (ok_inj h hard q)) (assembled-IsFresh o entries)
    where
      ok_inj : (a b : HardState) → ok a ≡ ok b → a ≡ b
      ok_inj a b e = cc

  module _ (disk : Disk) (read : read_hard_state codec hard_of disk.hard_state ≡ ok hard) where
    with_log-IsFresh :
        (o : Origin Value) (x : Opening)
        → IsFresh cfg hard (with_log codec hard_of name cfg now o disk x)
    unfolding IsFresh with_log
    with_log-IsFresh o (opened entries) =
        with_hard-IsFresh o entries (read_hard_state codec hard_of disk.hard_state) read
    with_log-IsFresh o (fails e) = tt
    with_log-IsFresh o endless = tt

    with_origin-IsFresh :
        (cut sync : Bool) (o : Result (Origin Value))
        → IsFresh cfg hard (with_origin codec hard_of name cfg now cut sync disk o)
    unfolding IsFresh with_origin
    with_origin-IsFresh cut sync (err e) = tt
    with_origin-IsFresh cut sync (ok o) =
        with_log-IsFresh o (open_log cfg.shard o.seed cut sync disk.log).opening

    with_snapshot-IsFresh :
        (cut sync : Bool) (s : Result (Option SnapshotFile))
        → IsFresh cfg hard (with_snapshot codec hard_of name cfg now cut sync disk s)
    unfolding IsFresh with_snapshot
    with_snapshot-IsFresh cut sync (err e) = tt
    with_snapshot-IsFresh cut sync (ok s) =
        with_origin-IsFresh cut sync (origin codec hard_of cfg s)

    with_config-IsFresh :
        (cut sync : Bool) (v : Option ConfigFault)
        → IsFresh cfg hard (with_config codec hard_of name cfg now cut sync disk v)
    unfolding IsFresh with_config
    with_config-IsFresh cut sync (some fault) = tt
    with_config-IsFresh cut sync none =
        with_snapshot-IsFresh cut sync (load codec.snapshot_of disk.saved_snapshots)

    open_node-IsFresh :
        (cut sync : Bool) → IsFresh cfg hard (open_node codec hard_of name cfg now cut sync disk)
    unfolding open_node
    open_node-IsFresh cut sync = with_config-IsFresh cut sync (validate cfg)

-- A node that opens from files whose hard state is the one on the disk of a node, with its
-- configuration, is that node restarted: a follower with the hard state that was on the disk.
pub open_node-Reopened :
    {Value : Type 0} (codec : Codec Value) (hard_of : List ℕ → Option HardState) (name : List ℕ)
    (now : ℕ) (cut sync : Bool) (disk : Disk) (n n' : Node Value)
    → read_hard_state codec hard_of disk.hard_state ≡ ok n.disk_hard
    → open_node codec hard_of name n.cfg now cut sync disk ≡ node n'
    → Reopened n n'
unfolding IsFresh
open_node-Reopened codec hard_of name now cut sync disk n n' read e =
    let f =
      subst (IsFresh n.cfg n.disk_hard) e
        (open_node-IsFresh codec hard_of name n.cfg now n.disk_hard disk read cut sync) in
    record { same_id = f.0; same_voters = f.1; from_disk = f.2; same_disk = f.3; as_follower = f.4 }
