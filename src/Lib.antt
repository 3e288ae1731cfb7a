-- ===== src/Lib.antt =====
-- Verification of rdsctl: the replicated core of the control plane.
--
-- The program keeps its decisions in a replicated state machine (src/ha/state.rs): versioned keys,
-- leases on instances, a ledger of steps and an audit trail. A consensus core (src/ha/raft.rs)
-- orders the operations in a hash-chained log (src/ha/log.rs, src/sha256.rs), commits them by
-- majorities and applies them. The position of the operation that grants or renews a lease becomes
-- the lease's fence (src/ha/mod.rs), and the guard on each host (src/ha/fence.rs) refuses
-- commands with a fence below the one that it has seen. Work on instances is a graph of steps
-- (src/dag.rs), run by the leader, and the decisions of the log are projected to an audit table
-- (src/ha/projection.rs).
--
-- Files and what they model:
-- - Base and its child modules: shared lists, machine words, texts, decimals, ordered maps. A text is
--   a list of character codes; a u16, u32 or u64 is a number with its wrap-around or saturation
--   written out.
-- - Errors: `HaError` and `HaResult`, without the texts of the messages. An error of the
--   disk carries no detail.
-- - Fence, Fence.Wire: `Fence`, its derived order, `wire` and `parse`.
-- - Fence.Guard: `ExecutorGuard`; the files under its root are two maps from file names to
--   texts; whether a read succeeds and the outcome of a write are arguments. Commands run one after the
--   other, although the agent (agent.rs) handles each connection in a task of its own.
-- - Sha256: `digest` and `to_hex`, over lists of bytes.
-- - State: the data of state.rs; State.Kv, State.Leases, State.Steps: the operations on keys,
--   leases and steps; State.Apply: `apply`; State.Apply.Image: `to_image` and `from_image`;
--   State.Run: operations applied in the order of the log. The type of stored JSON values is a parameter.
-- - Log: `Record`, its bytes and hash, and `Log` with the records in memory; whether the disk takes
--   a write is an argument. Log.Replay: `open`, `replay` and `drop_tail` over the bytes of the file.
-- - Snapshot: `SnapshotFile`, `save` and `load`; the two files of a shard are optional lists of bytes,
--   and an argument says where a save is interrupted.
-- - Raft: the data of raft.rs; Raft.Config, Raft.Timers, Raft.Skew: `RaftConfig`, the random source
--   and deadline, the samples of the clocks of peers; Raft.Election: campaigns and votes;
--   Raft.Replication with Leader and Follower: appending, committing, applying and the branches of
--   `handle_inner` for `AppendEntries` and the responses; Raft.Drive: `tick`, `flush`, `TimeoutNow`,
--   the answers to snapshots, and the tests of quorum and skew; Raft.Snapshots: `InstallSnapshot` and
--   `maybe_snapshot`; Raft.Handle: the step on terms, `handle_inner` and `handle`; Raft.StepDown:
--   `step_down` and the proposals of leases; Raft.Open: `Node::open` from the files.
-- - Raft.Cluster: nodes with all messages that were sent, and a step relation: a message that was sent
--   is delivered, a voter ticks, flushes, resigns, proposes, takes a snapshot or restarts.
--   Raft.Safety and the modules named Cores say what each call does to the part of a node that
--   elections depend on, Raft.Cluster.Invariant holds the invariant over a history of votes, and
--   Raft.Cluster.Elections the induction over the steps.
-- - Tasks: the data of src/dag.rs; Tasks.Labels: the names of the states; Tasks.Cycle: `find_cycle`;
--   Tasks.Nodes: `run_node`; Tasks.Plan: the variables of `execute` and the nodes that an end releases;
--   Tasks.Execute: `execute`, which runs the nodes of a task in waves;
--   Tasks.Scheduler with Drafts and Rerun: the operations of `TaskScheduler`; Tasks.Resume:
--   `resume_pending`. The executor of steps is a function on a type of states that stands for
--   everything outside; the record `Env` holds in which order the nodes of a wave end, what each of them
--   meets, and when a cancellation is seen; the calls of the store in `execute` and the starts and ends of
--   nodes are a list of events, the newest first. In the scheduler the store is a record of
--   operations, and a spawned `execute` is a result.
-- - Projection: src/ha/projection.rs; Projection.Sink: the round of src/main.rs that writes the rows to the
--   audit table.
-- - Examples: concrete inputs of the theorems.
--
-- A function that changes its object takes and returns the record. A handler of the consensus core
-- returns the node with the outbound messages or the error that ends it; the record `Env` holds what
-- the surroundings do during the call: the clock, which is read once for the call, and the answers
-- of the disk. `disk_hard` of a node is the hard state that its disk holds, so that a crash is a
-- node whose hard state is read from there. The JSON forms of operations, states and snapshots
-- (serde_json) are parameters: `to_json` and `decode`, or the record `Codec`.
--
-- Bounds and fuel: the padding loop of Sha256 has 64 rounds of fuel, more than it can
-- use; the loop of `apply_committed` has the number of entries between the applied and the commit index,
-- and that of `advance_commit` the number between the commit index and the last index. The search for
-- cycles may go one deeper than there are nodes, and the loop of `execute` has one round more than there are
-- nodes, each round starting one at least. The loop of
-- `run_node` has fuel for one attempt more than there are retries, which is enough unless `retries` is the
-- greatest u32; a loop that does not end even so counts as a failure without output, and the theorems that need
-- the end of the loop exclude it. The loop
-- of `replay` has the length of the file, and `replay` itself is run at most twice. Decimal printing
-- has fuel for the number of digits of a 64-bit word. Overflow of a counter wraps around; theorems that need
-- that it does not happen say so in a hypothesis. In a cluster, the writes of the hard state succeed in the
-- calls that depend on them, terms do not reach the bound of their type, and a restarted node has the
-- configuration and the hard state that it had on its disk.
--
-- Not modelled: the views for operators (raft.rs: `peers_view`, `ready`, `skew_diag`) and the
-- creation of directories and empty files; authentication and runtime of the cluster; the JSON views
-- of tasks (dag.rs: `to_view`, `list`, `get`, `instance_tasks`, `merge_views`) and the wait between
-- two attempts of a node; and the other parts outside src/ha: orchestration, back ends of execution,
-- queries, reports and the HTTP service. They are input and output for the larger part, or are to be
-- added later. Vendored crates are not modelled.
pub mod Base
pub mod Fence
pub mod State
pub mod Sha256
pub mod Errors
pub mod Log
pub mod Snapshot
pub mod Raft
pub mod Tasks
pub mod Projection
pub mod Examples
