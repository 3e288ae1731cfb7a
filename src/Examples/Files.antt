-- ===== src/Examples/Files.antt =====
-- Concrete files of logs, snapshots and nodes of src/ha.
use rdsctl.Base.{
  Bool-cases, take, All, text_eq, text_eq_iff, ℕ, zero, suc, ◌≡◌, refl, sym, subst, ◌≢◌, inl, inr,
  true, false, Option, none, some, List, [], ◌∷◌, ◌++◌, arith,
}
use rdsctl.Errors.{ok}
use rdsctl.State.{new}
use rdsctl.Sha256.{be_bytes4}
use rdsctl.Sha256.Laws.{IsByte, length-digest, digest-IsByte}
use rdsctl.Log.{
  kind_entry, Record, encode, PendingEntry, Log, last_index, seal, pending_record, stage,
  append_batch,
}
use rdsctl.Log.Chain.{append_batch-IsChained}
use rdsctl.Log.Replay.{broken_chain, scan, zero_hash, endless, conclude, replay, open_log}
use rdsctl.Log.Replay.Records.{Sized}
use rdsctl.Log.Replay.Laws.{encode_all, Writable, whole, open_log-encode_all}
use rdsctl.Log.Replay.Torn.{open_log_torn}
use rdsctl.Log.Replay.Ends.{open_log_ends}
use rdsctl.Snapshot.{
  SnapshotFile, new_snapshot, verify, seed_bytes, Files, between, save, read_one, load,
}
use rdsctl.Snapshot.Laws.{verify-new_snapshot, read-written, load-current, save-Survives}
use rdsctl.Raft.{HardState, Node}
use rdsctl.Raft.Config.{new_config, validate}
use rdsctl.Raft.Snapshots.{Codec}
use rdsctl.Raft.Open.{
  Disk, not_opened, read_hard_state, origin, assembled, with_hard, with_log, with_origin,
  with_snapshot, with_config, open_node,
}
use rdsctl.Raft.Open.Laws.{open_node-Reopened}
use rdsctl.Raft.Open.Interrupted.{open_node-Interrupted}
use rdsctl.Raft.Cluster.{Reopened}
use rdsctl.Examples.Nodes.{ana, three_voters, follows}

-- A log with the record of one entry.
abbrev fresh_log : Log
fresh_log = record { shard = 1; entries = []; seed_hash = zero_hash }

abbrev first_entry : PendingEntry
first_entry = record { kind = kind_entry; term = 1; index = 1; payload = 7 ∷ [] }

abbrev first_record : Record
first_record = seal 1 zero_hash (pending_record 1 zero_hash first_entry)

abbrev written : Log
written = record { shard = 1; entries = first_record ∷ []; seed_hash = zero_hash }

first_record-Sized : Sized first_record
unfolding seal
first_record-Sized = record {
  ver = omega arith;
  kind = omega arith;
  flags = omega arith;
  shard = omega arith;
  term = omega arith;
  index = omega arith;
  prev_hash = refl;
  payload = omega arith;
  hash = length-digest _;
}

written-Writable : Writable 1 written
unfolding append_batch last_index stage
written-Writable = record {
  chained = append_batch-IsChained fresh_log (first_entry ∷ []) true (tt, tt);
  sized = (first_record-Sized, tt);
  versions = (refl, tt);
  well_formed = record { consecutive = (refl, tt); positive = omega arith; bounded = omega arith };
  from_one = λ _. refl;
}

open_log-encode_all_example :
    open_log 1 zero_hash true true (encode_all written.entries) ≡ whole written 0
open_log-encode_all_example = open_log-encode_all 1 written written-Writable true true

-- Three bytes of a next record.
open_log_torn_example :
    open_log 1 zero_hash true true (encode_all written.entries ++ take 3 (encode first_record))
    ≡ whole written 3
unfolding seal encode be_bytes4
open_log_torn_example =
    open_log_torn 1 written written-Writable first_record 3 first_record-Sized refl refl
      (omega arith) (omega arith) refl

open_log_ends_example : (open_log 1 zero_hash true true (82 ∷ 68 ∷ [])).opening ≢ endless
open_log_ends_example = open_log_ends 1 zero_hash true true (82 ∷ 68 ∷ [])

abbrev snap : SnapshotFile
snap = new_snapshot 1 1 1 0 []

abbrev codec : Codec ℕ
codec = record {
  op_of = λ bytes. none;
  of_op = λ op. [];
  state_of = λ bytes. some (new 1 1000);
  of_state = λ sm. [];
  snapshot_of = λ bytes. some snap;
}

-- The JSON of any snapshot is one byte, which parses to the one above.
abbrev to_byte : SnapshotFile → List ℕ
to_byte s = 1 ∷ []

abbrev snapshot_files : Files
snapshot_files = record { current = some (1 ∷ []); previous = none }

snap_verifies : verify snap ≡ none
snap_verifies = verify-new_snapshot 1 1 1 0 []

snap_read : read_one codec.snapshot_of snapshot_files.current ≡ ok (some snap)
snap_read = read-written to_byte codec.snapshot_of snap refl snap_verifies

save-Survives_example :
    load codec.snapshot_of (save to_byte snapshot_files snap between).0 ≡ ok (some snap)
save-Survives_example =
    save-Survives to_byte codec.snapshot_of snapshot_files snap snap between refl snap_verifies
      snap_read

-- A log whose seed is no list of bytes, so that no snapshot has it.
abbrev wide : ℕ → List ℕ
wide zero = []
wide (suc n) = 999 ∷ wide n

abbrev wide_record : Record
wide_record = seal 1 (wide 32) (pending_record 1 (wide 32) first_entry)

abbrev left_behind : Log
left_behind = record { shard = 1; entries = wide_record ∷ []; seed_hash = wide 32 }

left_behind-Writable : Writable 1 left_behind
unfolding append_batch last_index stage seal
left_behind-Writable = record {
  chained =
      append_batch-IsChained (record { shard = 1; entries = []; seed_hash = wide 32 })
        (first_entry ∷ []) true (tt, tt);
  sized = (
    record {
      ver = omega arith;
      kind = omega arith;
      flags = omega arith;
      shard = omega arith;
      term = omega arith;
      index = omega arith;
      prev_hash = refl;
      payload = omega arith;
      hash = length-digest _;
    },
    tt,
  );
  versions = (refl, tt);
  well_formed = record { consecutive = (refl, tt); positive = omega arith; bounded = omega arith };
  from_one = λ _. refl;
}

no_seed : text_eq left_behind.seed_hash (seed_bytes snap) ≡ false
unfolding seed_bytes
no_seed = elim (Bool-cases (text_eq (wide 32) (seed_bytes snap))) [
  | inr e ↦ e
  | inl e ↦ absurd (
      omega (
        arith,
        (subst (All IsByte) (sym ((text_eq_iff (wide 32) (seed_bytes snap)).0 e))
            (digest-IsByte snap.hash).1).0,
      ))
]

abbrev interrupted : Disk
interrupted = record {
  saved_snapshots = snapshot_files;
  log = encode_all left_behind.entries;
  hard_state = none;
}

abbrev no_hard : List ℕ → Option HardState
no_hard bytes = none

open_node-Interrupted_example :
    open_node codec no_hard ana three_voters 0 true true interrupted
    ≡ not_opened (broken_chain wide_record)
unfolding new_config validate text_eq
open_node-Interrupted_example =
    open_node-Interrupted codec no_hard ana three_voters 0 true true interrupted snap (new 1 1000) 1
      left_behind wide_record []
      (record {
        accepted = refl;
        snapshot_kept = load-current to_byte codec.snapshot_of snapshot_files snap snap_read;
        state_kept = refl;
        same_shard = refl;
        log_kept = refl;
        other_seed = no_seed;
      })
      left_behind-Writable refl

abbrev no_files : Disk
no_files = record {
  saved_snapshots = record { current = none; previous = none };
  log = [];
  hard_state = none;
}

abbrev stopped_node : Node ℕ
stopped_node = record follows { disk_hard = record { current_term = 0; voted_for = none } }

abbrev reopened_node : Node ℕ
reopened_node =
    assembled codec no_hard ana three_voters 0
      (record { sm = new 1 1000; seed = zero_hash; index = 0; term = 0 }) [] stopped_node.disk_hard

open_node-Reopened_example : Reopened stopped_node reopened_node
unfolding new_config open_node with_config with_snapshot with_origin with_log with_hard origin
    read_hard_state load open_log replay conclude scan validate text_eq
open_node-Reopened_example =
    open_node-Reopened codec no_hard ana 0 true true no_files stopped_node reopened_node refl refl
