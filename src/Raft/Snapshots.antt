-- ===== src/Raft/Snapshots.antt =====
-- src/ha/raft.rs: taking and installing snapshots.
pub mod Cores
use rdsctl.Base.{
  ltb, leb, ◌==◌, if◌then◌else◌, length, Text, codes, ℕ, max, Bool, true, false, ◌&&◌, ◌||◌, not,
  Option, none, some, List, [], ◌∷◌, text_key,
}
use rdsctl.Base.Map
use rdsctl.Errors.{HaError, io, corrupt, Result, ok, err}
use rdsctl.State.{Op, StateMachine}
use rdsctl.Log.{Log, term_at, compact_upto}
use rdsctl.Snapshot.{SnapshotFile, new_snapshot, verify, seed_bytes}
use rdsctl.Raft.{install_snapshot_resp, Outbound, Node, Env}
use rdsctl.Raft.Election.{Handled, become_follower}

-- The JSON forms of operations, states and snapshots (serde_json).
pub record Codec (Value : Type 0) : Type 0 where
  pub op_of : List ℕ → Option (Op Value)
  pub of_op : Op Value → List ℕ
  pub state_of : List ℕ → Option (StateMachine Value)
  pub of_state : StateMachine Value → List ℕ
  pub snapshot_of : List ℕ → Option SnapshotFile

module _ {Value : Type 0} (codec : Codec Value) where
  pub snapshot_resp : Node Value → Text → ℕ → List Outbound
  snapshot_resp n to index =
      record {
        to = to;
        msg = install_snapshot_resp n.hard.current_term n.cfg.node_id true index;
        critical = false;
      }
      ∷ []

  -- Behind the compaction of the log.
  pub placed : SnapshotFile → Text → Log × Option HaError → Node Value → Handled Value
  unfolding snapshot_resp
  placed snap who (l, some e) n = (record n { log = l }, err e)
  placed snap who (l, none) n = (
    record n {
      log = l;
      snapshot_index = snap.last_included_index;
      snapshot_term = snap.last_included_term;
      commit_index = max n.commit_index snap.last_included_index;
    },
    ok (snapshot_resp n who snap.last_included_index),
  )

  -- Behind the parsing of the state.
  pub restored :
      SnapshotFile → Text → Option (StateMachine Value) → Env → Node Value → Handled Value
  unfolding placed
  restored snap who none env n = (n, err (corrupt (codes "快照状态机解析失败")))
  restored snap who (some sm) env n =
      if env.save_ok
      then placed snap who
          (compact_upto n.log snap.last_included_index (seed_bytes snap) env.compact_ok)
          (record n { sm = sm })
      else (n, err io)

  pub checked : SnapshotFile → Text → Option HaError → Env → Node Value → Handled Value
  unfolding restored snapshot_resp
  checked snap who (some e) env n = (n, err e)
  checked snap who none env n =
      if leb snap.last_included_index n.snapshot_index
      then (n, ok (snapshot_resp n who n.snapshot_index))
      else restored snap who (codec.state_of snap.state_json) env n

  pub parsed : Option SnapshotFile → Text → Env → Node Value → Handled Value
  unfolding checked
  parsed none who env n = (n, err (corrupt (codes "InstallSnapshot 解析失败")))
  parsed (some snap) who env n = checked snap who (verify snap) env n

  pub received : List ℕ → Text → Env → Node Value × Bool → Handled Value
  unfolding parsed
  received json who env (n, false) = (n, err io)
  received json who env (n, true) =
      parsed (codec.snapshot_of json) who env (record n { last_heartbeat_ms = env.now })

  -- The branch of `handle_inner` for `InstallSnapshot`. The errors of texts that do not parse carry
  -- no detail.
  unfoldable pub handle_install_snapshot : ℕ → Text → List ℕ → Env → Node Value → Handled Value
  unfolding received
  handle_install_snapshot term who json env n =
      let n' = record n { peer_ack_ms = Map.insert who env.now n.peer_ack_ms } in
      if ltb term n.hard.current_term
      then (n', ok [])
      else received json who env (become_follower term (some who) env.adopt_write n')

  pub compacted : ℕ → ℕ → Log × Option HaError → Node Value → Node Value × Result Bool
  compacted upto term (l, some e) n = (record n { log = l }, err e)
  compacted upto term (l, none) n =
      (record n { log = l; snapshot_index = upto; snapshot_term = term }, ok true)

  abbrev or_term : ℕ → Option ℕ → ℕ
  or_term d none = d
  or_term d (some t) = t

  -- The snapshot that `maybe_snapshot` saves.
  unfoldable pub snapshot_now : Node Value → SnapshotFile
  snapshot_now n =
      new_snapshot n.cfg.shard n.sm.applied_index
        (or_term n.sm.applied_term (term_at n.log n.sm.applied_index)) n.sm.config_epoch
        (codec.of_state n.sm)

  -- `maybe_snapshot`.
  unfoldable pub maybe_snapshot : Env → Node Value → Node Value × Result Bool
  unfolding compacted snapshot_now
  maybe_snapshot env n =
      let threshold = n.cfg.snapshot_entry_threshold in
      let upto = n.sm.applied_index in
      let snap = snapshot_now n in
      if threshold == 0 || leb (length n.log.entries) threshold
      then (n, ok false)
      else if upto == 0 || leb upto n.snapshot_index
      then (n, ok false)
      else if not (env.sync_ok && env.save_ok)
      then (n, err io)
      else compacted upto snap.last_included_term
          (compact_upto n.log upto (seed_bytes snap) env.compact_ok) n
