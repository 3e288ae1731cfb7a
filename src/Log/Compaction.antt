-- ===== src/Log/Compaction.antt =====
-- src/ha/log.rs: a log that a compaction empties.
use rdsctl.Base.{
  ltb, length, keep_if, ℕ, ◌+◌, ◌≤◌, ◌≡◌, refl, ◌↔◌, true, none, List, [], ◌∷◌, arith,
}
use rdsctl.Log.Laws.{Consecutive, IsWellFormed, Continues}
use rdsctl.Log.{Record, PendingEntry, Log, last_index, last_term, append_batch, compact_upto}

Consecutive-above :
    (start upto : ℕ) (rs : List Record)
    → Consecutive start rs
    → start + length rs ≤ upto + 1
    → keep_if (λ r. ltb upto r.index) rs ≡ []
Consecutive-above start upto [] c h = refl
Consecutive-above start upto (r ∷ rs) c h =
    ground (arith, Consecutive-above (start + 1) upto rs c.1)

-- A compaction up to the last index or beyond, which a snapshot of the newest state makes,
-- empties a log with consecutive indices: the last index and term read 0 afterwards, and of the
-- single entries only one with index 1 is accepted.
pub compact_upto_last :
    (start upto : ℕ) (l : Log) (seed : List ℕ) (e : PendingEntry)
    → IsWellFormed start l
    → Continues start l
    → last_index l ≤ upto
    → let l' = (compact_upto l upto seed true).0 in
      (last_index l' ≡ 0)
      × (last_term l' ≡ 0)
      × (((append_batch l' (e ∷ []) true).1 ≡ none) ↔ (e.index ≡ 1))
unfolding compact_upto last_index last_term append_batch
compact_upto_last start upto l seed e w c h =
    rw (Consecutive-above start upto l.entries w.consecutive (omega arith))
      (refl, refl, ground arith)
