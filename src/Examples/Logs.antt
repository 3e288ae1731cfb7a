-- ===== src/Examples/Logs.antt =====
-- Concrete logs of src/ha/log.rs.
use rdsctl.Base.{◌≡◌, refl, ◌↔◌, true, none, [], ◌∷◌, arith}
use rdsctl.Log.{
  kind_entry, Record, PendingEntry, Log, last_index, last_term, pending_record, append_batch,
  compact_upto,
}
use rdsctl.Log.Laws.{IsWellFormed}
use rdsctl.Log.Compaction.{compact_upto_last}

abbrev empty : Log
empty = record { shard = 1; entries = []; seed_hash = [] }

abbrev entry : PendingEntry
entry = record { kind = kind_entry; term = 1; index = 1; payload = [] }

abbrev record_one : Record
record_one = pending_record 1 [] entry

abbrev one_record : Log
one_record = record { shard = 1; entries = record_one ∷ []; seed_hash = [] }

one_record-IsWellFormed : IsWellFormed 1 one_record
one_record-IsWellFormed = record {
  consecutive = (refl, tt);
  positive = omega arith;
  bounded = omega arith;
}

compact_upto_last_example :
    let l' = (compact_upto one_record 1 (1 ∷ []) true).0 in
    (last_index l' ≡ 0)
    × (last_term l' ≡ 0)
    × (((append_batch l' (entry ∷ []) true).1 ≡ none) ↔ (entry.index ≡ 1))
unfolding last_index
compact_upto_last_example =
    compact_upto_last 1 1 one_record (1 ∷ []) entry one_record-IsWellFormed refl (omega arith)
