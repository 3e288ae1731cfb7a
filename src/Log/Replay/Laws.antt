-- ===== src/Log/Replay/Laws.antt =====
-- src/ha/log.rs: what opening a log finds.
use mathlib.Core.List.{append_assoc, append-nil}
use rdsctl.Base.{
  ==_iff, Bool-cases, length, last?, length-append, All, u64_mod, add64, add64_lem, Text, text_eq,
  text_eq_iff, ℕ, suc, ◌+◌, ◌-◌, ◌≤◌, ◌<◌, ◌≡◌, refl, sym, ap, ◌∙◌, inl, inr, Bool, none, List, [],
  ◌∷◌, ◌++◌, arith,
}
use rdsctl.Log.{log_ver, Record, header, encode, Log, prev_hash_for_next, hash_or}
use rdsctl.Log.Laws.{Consecutive, IsWellFormed}
use rdsctl.Log.Chain.{Chained, OfShard, IsChained}
use rdsctl.Log.Replay.{
  read_record, wire_len, Scan, clean, stopped, push, scan_read, scan, check_steps, zero_hash,
  check_first, opened, Replayed, conclude, replay, open_log,
}
use rdsctl.Log.Replay.Records.{Sized, length-header, Follows, read_record_written}

-- The records in their order, as the file holds them.
unfoldable pub encode_all : List Record → List ℕ
encode_all [] = []
encode_all (r ∷ rs) = encode r ++ encode_all rs

abbrev pub push_all : List Record → Scan → Scan
push_all [] s = s
push_all (r ∷ rs) s = push r (push_all rs s)

-- A log that the source can write: its chain is whole, its records have the sizes and the version of
-- the format, and the indices go on one by one, from 1 without a snapshot.
pub record Writable (start : ℕ) (l : Log) : Type 0 where
  pub chained : IsChained l
  pub sized : All Sized l.entries
  pub versions : All (λ r. r.ver ≡ log_ver) l.entries
  pub well_formed : IsWellFormed start l
  pub from_one : l.seed_hash ≡ zero_hash → start ≡ 1

pub encode_lem : (r : Record) → encode r ≡ header r ++ (r.payload ++ r.hash)
unfolding encode
encode_lem r = append_assoc (header r) r.payload r.hash

pub encode-append :
    (r : Record) (rest : List ℕ) → encode r ++ rest ≡ header r ++ (r.payload ++ (r.hash ++ rest))
encode-append r rest =
    ap (λ xs. xs ++ rest) (encode_lem r)
    ∙ append_assoc (header r) (r.payload ++ r.hash) rest
    ∙ ap (λ xs. header r ++ xs) (append_assoc r.payload r.hash rest)

pub scan_more :
    (fuel shard : ℕ) (prev bytes : List ℕ)
    → 0 < length bytes
    → scan (suc fuel) shard prev bytes
      ≡ scan_read (λ hash rest. scan fuel shard hash rest) (read_record shard prev bytes)
unfolding scan
scan_more fuel shard prev [] h = absurd (omega arith)
scan_more fuel shard prev (b ∷ bytes) h = refl

pub scan_written :
    (fuel shard : ℕ) (prev : List ℕ) (r : Record) (rest : List ℕ)
    → Follows shard prev r
    → scan (suc fuel) shard prev (encode r ++ rest) ≡ push r (scan fuel shard r.hash rest)
scan_written fuel shard prev r rest c =
    ap (scan (suc fuel) shard prev) (encode-append r rest)
    ∙ scan_more fuel shard prev (header r ++ (r.payload ++ (r.hash ++ rest))) (
        omega (
          arith,
          length-append (header r) (r.payload ++ (r.hash ++ rest)),
          length-header r c.sized,
        ))
    ∙ ap (scan_read (λ hash rest. scan fuel shard hash rest))
        (read_record_written shard prev r rest c)

-- The fuel for these records, and more.
abbrev pub fuel_for : List Record → ℕ → ℕ
fuel_for [] fuel = fuel
fuel_for (r ∷ rs) fuel = suc (fuel_for rs fuel)

pub fuel_for_lem : (rs : List Record) (fuel : ℕ) → fuel_for rs fuel ≡ length rs + fuel
fuel_for_lem [] fuel = omega arith
fuel_for_lem (r ∷ rs) fuel = omega (arith, fuel_for_lem rs fuel)

hash_after :
    (r : Record) (rs : List Record) (seed : List ℕ)
    → hash_or seed (last? (r ∷ rs)) ≡ hash_or r.hash (last? rs)
hash_after r [] seed = refl
hash_after r (q ∷ rs) seed = refl

scan-encode_all :
    (shard : ℕ) (rs : List Record) (prev : List ℕ) (fuel : ℕ) (tail : List ℕ)
    → Chained prev rs
    → OfShard shard rs
    → All Sized rs
    → All (λ r. r.ver ≡ log_ver) rs
    → scan (fuel_for rs fuel) shard prev (encode_all rs ++ tail)
      ≡ push_all rs (scan fuel shard (hash_or prev (last? rs)) tail)
unfolding encode_all
scan-encode_all shard [] prev fuel tail c o s v = refl
scan-encode_all shard (r ∷ rs) prev fuel tail c o s v =
    let ih = scan-encode_all shard rs r.hash fuel tail c.2 o.1 s.1 v.1 in
    ap (scan (suc (fuel_for rs fuel)) shard prev) (append_assoc (encode r) (encode_all rs) tail)
    ∙ scan_written (fuel_for rs fuel) shard prev r (encode_all rs ++ tail)
        (record { sized = s.0; this_ver = v.0; this_shard = o.0; follows = c.0; verifies = c.1 })
    ∙ ap (push r) (ih ∙ ap (λ h. push_all rs (scan fuel shard h tail)) (sym (hash_after r rs prev)))

pub length-encode : (r : Record) → Sized r → length (encode r) ≡ wire_len r
length-encode r s =
    ap length (encode_lem r)
    ∙ omega (
      arith,
      length-append (header r) (r.payload ++ r.hash),
      length-append r.payload r.hash,
      length-header r s,
      s.hash,
    )

pub length-encode_all : (rs : List Record) → All Sized rs → length rs ≤ length (encode_all rs)
unfolding encode_all
length-encode_all [] s = omega arith
length-encode_all (r ∷ rs) s =
    omega (
      arith,
      length-append (encode r) (encode_all rs),
      length-encode r s.0,
      length-encode_all rs s.1,
    )

push_all-clean : (rs : List Record) → push_all rs (clean []) ≡ clean rs
push_all-clean [] = refl
push_all-clean (r ∷ rs) = ap (push r) (push_all-clean rs)

pub push_all-stopped :
    (rs : List Record) (why : Text)
    → All Sized rs
    → push_all rs (stopped [] 0 why) ≡ stopped rs (length (encode_all rs)) why
unfolding encode_all
push_all-stopped [] why s = refl
push_all-stopped (r ∷ rs) why s =
    ap (push r) (push_all-stopped rs why s.1)
    ∙ ap (λ n. stopped (r ∷ rs) n why)
        (omega (arith, length-append (encode r) (encode_all rs), length-encode r s.0))

check_steps_pass :
    (start : ℕ) (rs : List Record)
    → Consecutive start rs
    → start + length rs < u64_mod
    → check_steps rs ≡ none
check_steps_pass start [] c b = refl
check_steps_pass start (r ∷ []) c b = refl
check_steps_pass start (r ∷ q ∷ rs) c b =
    rw
      (
        (==_iff q.index (add64 r.index 1)).1 (next (c.0) (c.1.0)),
        check_steps_pass (start + 1) (q ∷ rs) c.1 (omega arith),
      )
      refl
  where
    next : r.index ≡ start → q.index ≡ start + 1 → q.index ≡ add64 r.index 1
    next e f = omega (arith, add64_lem r.index 1 (omega arith))

check_first_pass :
    (start : ℕ) (seed : List ℕ) (rs : List Record)
    → Consecutive start rs
    → (seed ≡ zero_hash → start ≡ 1)
    → check_first seed rs ≡ none
check_first_pass start seed [] c h = refl
check_first_pass start seed (r ∷ rs) c h = elim (Bool-cases (text_eq seed zero_hash)) [
  | inl e ↦ rw (e, (==_iff r.index 1).1 (c.0 ∙ h ((text_eq_iff seed zero_hash).0 e))) refl
  | inr e ↦ rw e refl
]

-- The outcome that a whole file has.
abbrev pub whole : Log → ℕ → Replayed
whole l dropped = record {
  bytes = encode_all l.entries;
  dropped = dropped;
  opening = opened l.entries;
}

module _ (start : ℕ) (l : Log) (w : Writable start l) where
  pub scan_file :
      (fuel : ℕ) (tail : List ℕ)
      → scan (fuel_for l.entries fuel) l.shard l.seed_hash (encode_all l.entries ++ tail)
        ≡ push_all l.entries (scan fuel l.shard (prev_hash_for_next l) tail)
  unfolding prev_hash_for_next
  scan_file fuel tail =
      scan-encode_all l.shard l.entries l.seed_hash fuel tail w.chained.0 w.chained.1 w.sized
        w.versions

  scan_empty : (fuel shard : ℕ) (prev : List ℕ) → scan fuel shard prev [] ≡ clean []
  unfolding scan
  scan_empty fuel shard prev = refl

  scan_whole :
      scan (length (encode_all l.entries)) l.shard l.seed_hash (encode_all l.entries)
      ≡ clean l.entries
  scan_whole =
      let spare = length (encode_all l.entries) - length l.entries in
      let enough : length (encode_all l.entries) ≡ fuel_for l.entries spare =
        omega (arith, fuel_for_lem l.entries spare, length-encode_all l.entries w.sized) in
      ap (λ n. scan n l.shard l.seed_hash (encode_all l.entries)) enough
      ∙ ap (scan (fuel_for l.entries spare) l.shard l.seed_hash)
          (sym (append-nil (encode_all l.entries)))
      ∙ scan_file spare []
      ∙ ap (push_all l.entries) (scan_empty spare l.shard (prev_hash_for_next l))
      ∙ push_all-clean l.entries

  pub replay-whole :
      (rounds : ℕ) (cut sync : Bool) (dropped : ℕ)
      → replay (suc rounds) l.shard l.seed_hash cut sync dropped (encode_all l.entries)
        ≡ whole l dropped
  unfolding replay conclude
  replay-whole rounds cut sync dropped =
      rw
        (
          scan_whole,
          check_steps_pass start l.entries w.well_formed.consecutive w.well_formed.bounded,
          check_first_pass start l.seed_hash l.entries w.well_formed.consecutive w.from_one,
        )
        refl

  -- Opening the file that holds the records of a log that the source can write gives the log back, and
  -- drops nothing.
  pub open_log-encode_all :
      (cut sync : Bool) → open_log l.shard l.seed_hash cut sync (encode_all l.entries) ≡ whole l 0
  unfolding open_log
  open_log-encode_all cut sync = replay-whole 1 cut sync 0
