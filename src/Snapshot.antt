-- ===== src/Snapshot.antt =====
-- src/ha/snapshot.rs: snapshot files. Their JSON form (serde_json) is a pair of parameters, and how
-- far a write to the disk comes an argument.
pub mod Laws
use rdsctl.Base.{
  ◌==◌, if◌then◌else◌, Text, codes, text_eq, ℕ, ◌/◌, ◌%◌, not, Option, none, some, List, ◌∷◌, ◌++◌,
}
use rdsctl.Base.Decimal
use rdsctl.Errors.{HaError, io, corrupt, Result, ok, err}
use rdsctl.Sha256.{be_bytes8, digest, to_hex}

abbrev pub snapshot_format_ver : ℕ
snapshot_format_ver = 1

pub record SnapshotFile : Type 0 where
  pub format_ver : ℕ
  pub shard : ℕ
  pub last_included_index : ℕ
  pub last_included_term : ℕ
  pub config_epoch : ℕ
  pub state_json : List ℕ
  pub hash : Text

-- `compute_hash`: the hexadecimal SHA-256 of the fields, big-endian, and the state.
content_hash : ℕ → ℕ → ℕ → ℕ → List ℕ → Text
content_hash shard index term config_epoch state_json = to_hex (
    digest (
      (shard / 256 % 256)
      ∷ (shard % 256)
      ∷ (be_bytes8 index ++ be_bytes8 term ++ be_bytes8 config_epoch ++ state_json)))

-- `SnapshotFile::new`.
unfoldable pub new_snapshot : ℕ → ℕ → ℕ → ℕ → List ℕ → SnapshotFile
unfolding content_hash
new_snapshot shard index term config_epoch state_json = record {
  format_ver = snapshot_format_ver;
  shard = shard;
  last_included_index = index;
  last_included_term = term;
  config_epoch = config_epoch;
  state_json = state_json;
  hash = content_hash shard index term config_epoch state_json;
}

-- `verify`: the error, if there is one.
unfoldable pub verify : SnapshotFile → Option HaError
unfolding content_hash
verify s =
    if not (s.format_ver == snapshot_format_ver)
    then some (
        corrupt (
          codes "快照格式版本不支持:"
          ++ Decimal.display s.format_ver
          ++ codes " (本程序 "
          ++ Decimal.display snapshot_format_ver
          ++ codes ")"))
    else if text_eq
        (content_hash s.shard s.last_included_index s.last_included_term s.config_epoch
          s.state_json)
        s.hash
    then none
    else some (
        corrupt
          (codes "快照哈希失配(index=" ++ Decimal.display s.last_included_index ++ codes "):文件可能被截断或篡改"))

-- `seed_bytes`.
unfoldable pub seed_bytes : SnapshotFile → List ℕ
seed_bytes s = digest s.hash

-- The files `snapshot.json` and `snapshot.prev.json` of a shard.
pub record Files : Type 0 where
  pub current : Option (List ℕ)
  pub previous : Option (List ℕ)

-- How far a save comes: to the end, or to a failure before the first rename, between the two, or
-- behind them.
pub data SaveOutcome : Type 0 where
  saved early between late : SaveOutcome

-- The current file, if there is one, becomes the previous one.
set_aside : Files → Files
set_aside f = elim f.current [
  | none ↦ f
  | some raw ↦ record { current = none; previous = some raw }
]

module _ (to_json : SnapshotFile → List ℕ) where
  -- `save`.
  unfoldable pub save : Files → SnapshotFile → SaveOutcome → Files × Result (Unit {0})
  unfolding set_aside
  save f s early = (f, err io)
  save f s between = (set_aside f, err io)
  save f s late = (record (set_aside f) { current = some (to_json s) }, err io)
  save f s saved = (record (set_aside f) { current = some (to_json s) }, ok tt)

module _ (from_json : List ℕ → Option SnapshotFile) where
  verified : SnapshotFile → Option HaError → Result (Option SnapshotFile)
  verified s none = ok (some s)
  verified s (some e) = err e

  -- `read_one`; the error of a file that does not parse carries no detail.
  pub read_one : Option (List ℕ) → Result (Option SnapshotFile)
  unfolding verified
  read_one none = ok none
  read_one (some raw) = elim (from_json raw) [
    | none ↦ err (corrupt (codes "快照解析失败"))
    | some s ↦ verified s (verify s)
  ]

  or_previous : Result (Option SnapshotFile) → Option (List ℕ) → Result (Option SnapshotFile)
  unfolding read_one
  or_previous (ok (some s)) prev = ok (some s)
  or_previous (ok none) prev = read_one prev
  or_previous (err e) prev = read_one prev

  -- `load`: the current snapshot, or the previous one where the current one is missing or broken.
  unfoldable pub load : Files → Result (Option SnapshotFile)
  unfolding or_previous read_one
  load f = or_previous (read_one f.current) f.previous
