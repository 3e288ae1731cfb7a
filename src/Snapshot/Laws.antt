-- ===== src/Snapshot/Laws.antt =====
-- src/ha/snapshot.rs: a save never loses the snapshot that can be loaded.
use rdsctl.Base.{text_eq_refl, ℕ, ◌≡◌, refl, Option, none, some, List}
use rdsctl.Errors.{Result, ok}
use rdsctl.Snapshot.{
  SnapshotFile, new_snapshot, verify, Files, SaveOutcome, saved, early, between, late, save,
  read_one, load, or_previous, set_aside, verified,
}

-- A new snapshot verifies.
pub verify-new_snapshot :
    (shard index term config_epoch : ℕ) (state_json : List ℕ)
    → verify (new_snapshot shard index term config_epoch state_json) ≡ none
unfolding verify new_snapshot
verify-new_snapshot shard index term config_epoch state_json = rw (text_eq_refl _) refl

-- What a load gives after a save: the new snapshot, or the old one where the save failed.
abbrev pub Survives :
    Result (Option SnapshotFile) → SnapshotFile → SnapshotFile → SaveOutcome → Type 0
Survives r old s saved = r ≡ ok (some s)
Survives r old s late = r ≡ ok (some s)
Survives r old s _ = r ≡ ok (some old)

module _ (to_json : SnapshotFile → List ℕ) (from_json : List ℕ → Option SnapshotFile) where
  pub read-written :
      (s : SnapshotFile)
      → from_json (to_json s) ≡ some s
      → verify s ≡ none
      → read_one from_json (some (to_json s)) ≡ ok (some s)
  unfolding read_one verified
  read-written s p v = rw (read_one, p, v) refl

  pub load-current :
      (f : Files) (s : SnapshotFile)
      → read_one from_json f.current ≡ ok (some s)
      → load from_json f ≡ ok (some s)
  unfolding load or_previous
  load-current f s e = rw e refl

  load-moved :
      (f : Files) (s : SnapshotFile)
      → read_one from_json f.current ≡ ok (some s)
      → load from_json (set_aside f) ≡ ok (some s)
  unfolding set_aside load or_previous read_one
  load-moved f s e = go f.current f.previous e
    where
      go :
          (c p : Option (List ℕ))
          → read_one from_json c ≡ ok (some s)
          → load from_json (set_aside (record { current = c; previous = p })) ≡ ok (some s)
      go none p h = load-current (record { current = none; previous = p }) s h
      go (some raw) p h = h

  -- Whatever interrupts a save, a loadable current snapshot is not lost: afterwards the load gives the
  -- new snapshot if the save came past its second rename, and the old one otherwise. The JSON of the new
  -- snapshot parses to it, and it verifies.
  pub save-Survives :
      (f : Files) (old s : SnapshotFile) (out : SaveOutcome)
      → from_json (to_json s) ≡ some s
      → verify s ≡ none
      → read_one from_json f.current ≡ ok (some old)
      → Survives (load from_json (save to_json f s out).0) old s out
  unfolding save
  save-Survives f old s early p v h = load-current f old h
  save-Survives f old s between p v h = load-moved f old h
  save-Survives f old s late p v h =
      load-current (record (set_aside f) { current = some (to_json s) }) s (read-written s p v)
  save-Survives f old s saved p v h =
      load-current (record (set_aside f) { current = some (to_json s) }) s (read-written s p v)
