-- ===== src/Log/Chain.antt =====
-- src/ha/log.rs: the hash chain from the seed through the records.
use rdsctl.Base.{
  ltb, last?, keep_if, All, All-append, text_eq_refl, ℕ, ◌≡◌, refl, subst, inl, inr, Bool, true,
  false, List, [], ◌∷◌, ◌++◌, arith,
}
use rdsctl.Log.Laws.{append_kept_or_grown}
use rdsctl.Log.{
  log_ver, Record, verify_hash, PendingEntry, Log, prev_hash_for_next, seal, rechain,
  pending_record, stage, append_batch, rewrite, truncate_suffix, compact_upto, hash_or,
}

-- Each record names its predecessor's hash, the first one the seed, and its own hash verifies.
abbrev pub Chained : List ℕ → List Record → Type 0
Chained prev [] = Unit
Chained prev (r ∷ rs) = (r.prev_hash ≡ prev) × (verify_hash r ≡ true) × Chained r.hash rs

-- The records belong to the log's shard.
abbrev pub OfShard : ℕ → List Record → Type 0
OfShard shard = All (λ r. r.shard ≡ shard)

abbrev pub IsChained : Log → Type 0
IsChained l = Chained l.seed_hash l.entries × OfShard l.shard l.entries

-- A sealed record verifies.
seal-verify :
    (shard : ℕ) (prev : List ℕ) (r : Record)
    → r.shard ≡ shard
    → verify_hash (seal shard prev r) ≡ true
unfolding seal verify_hash
seal-verify shard prev r e = subst (λ n. verify_hash (seal n prev r) ≡ true) e (text_eq_refl _)

stage-Chained :
    (shard : ℕ) (es : List PendingEntry) (prev : List ℕ)
    → Chained prev (stage shard prev es) × OfShard shard (stage shard prev es)
unfolding stage
stage-Chained shard [] prev = (tt, tt)
stage-Chained shard (e ∷ es) prev =
    let ih = stage-Chained shard es _ in
    ((refl, seal-verify shard prev (pending_record shard prev e) refl, ih.0), (refl, ih.1))

rechain-Chained :
    (shard : ℕ) (rs : List Record) (prev : List ℕ)
    → OfShard shard rs
    → Chained prev (rechain shard prev rs) × OfShard shard (rechain shard prev rs)
unfolding rechain
rechain-Chained shard [] prev o = (tt, tt)
rechain-Chained shard (r ∷ rs) prev o =
    let ih = rechain-Chained shard rs _ o.1 in
    ((refl, seal-verify shard prev (record r { ver = log_ver }) o.0, ih.0), (o.0, ih.1))

Chained-append :
    (rs ss : List Record) (prev : List ℕ)
    → Chained prev rs
    → Chained (hash_or prev (last? rs)) ss
    → Chained prev (rs ++ ss)
Chained-append [] ss prev h k = k
Chained-append (r ∷ []) ss prev h k = (h.0, h.1, k)
Chained-append (r ∷ q ∷ rs) ss prev h k = (h.0, h.1, Chained-append (q ∷ rs) ss r.hash h.2 k)

-- An append keeps a whole chain whole, whether it is accepted or not.
pub append_batch-IsChained :
    (l : Log) (batch : List PendingEntry) (disk : Bool)
    → IsChained l
    → IsChained (append_batch l batch disk).0
append_batch-IsChained l batch disk h = elim (append_kept_or_grown l batch disk) [
  | inl e ↦ rw e h
  | inr e ↦ rw e (
    Chained-append l.entries _ l.seed_hash h.0
        (unfold prev_hash_for_next in (stage-Chained l.shard batch _).0),
    All-append (λ (r : Record). r.shard ≡ l.shard) l.entries _ h.1
        (stage-Chained l.shard batch _).1,
  )
]

OfShard-keep_if :
    (shard : ℕ) (test : Record → Bool) (rs : List Record)
    → OfShard shard rs
    → OfShard shard (keep_if test rs)
OfShard-keep_if shard test [] o = tt
OfShard-keep_if shard test (r ∷ rs) o = ground (arith, OfShard-keep_if shard test rs o.1)

rewrite-IsChained :
    (l : Log) (keep : List Record) (seed : List ℕ) (disk : Bool)
    → OfShard l.shard keep
    → IsChained l
    → IsChained (rewrite l keep seed disk).0
unfolding rewrite
rewrite-IsChained l keep seed true o h = rechain-Chained l.shard keep seed o
rewrite-IsChained l keep seed false o h = h

-- The truncation of a suffix keeps the chain whole, whether the disk takes it or not.
pub truncate_suffix-IsChained :
    (l : Log) (from : ℕ) (disk : Bool) → IsChained l → IsChained (truncate_suffix l from disk).0
unfolding truncate_suffix
truncate_suffix-IsChained l from disk h = ground (
  arith,
  rewrite-IsChained l (keep_if (λ r. ltb r.index from) l.entries) l.seed_hash disk
      (OfShard-keep_if l.shard (λ r. ltb r.index from) l.entries h.1) h,
)

-- A compaction, which anchors the chain at the given seed, keeps it whole, whether the disk takes it
-- or not.
pub compact_upto-IsChained :
    (l : Log) (upto : ℕ) (seed : List ℕ) (disk : Bool)
    → IsChained l
    → IsChained (compact_upto l upto seed disk).0
unfolding compact_upto
compact_upto-IsChained l upto seed disk h =
    rewrite-IsChained l _ seed disk (OfShard-keep_if l.shard (λ r. ltb upto r.index) l.entries h.1)
      h
