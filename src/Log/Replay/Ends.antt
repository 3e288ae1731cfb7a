-- ===== src/Log/Replay/Ends.antt =====
-- src/ha/log.rs: opening a log ends, whatever the file holds.
use rdsctl.Base.{
  if◌then◌else◌, length, take, drop, ℕ, zero, suc, ◌+◌, ◌-◌, ◌≤◌, ◌<◌, ◌≡◌, refl, ap, subst, ◌∙◌,
  ◌≢◌, Bool, true, false, not, Option, none, some, List, [], ◌∷◌, arith,
}
use rdsctl.Log.{Record}
use rdsctl.Log.Replay.{
  Read, torn, refused, parsed, read_record, wire_len, Scan, clean, stopped, rejected, spent, push,
  scan_read, scan, check_steps, check_first, Opening, opened, endless, or_fails, Replayed,
  has_magic, drop_tail, conclude, replay, open_log,
}
use rdsctl.Log.Replay.Laws.{scan_more}
use rdsctl.Log.Replay.Reading.{read_record-Again}
use rdsctl.Log.Replay.Records.{length_take_lem}
use rdsctl.Errors.{HaError}

-- The loop ends, and where it stops it has read a file that it reads to the end.
Prefixed : ℕ → List ℕ → List ℕ → Scan → Type 0
Prefixed shard prev bytes (clean rs) = Unit
Prefixed shard prev bytes (rejected e) = Unit
Prefixed shard prev bytes spent = ⊥
Prefixed shard prev bytes (stopped rs offset why) =
    (offset ≤ length bytes)
    × ((fuel : ℕ) → offset ≤ fuel → scan fuel shard prev (take offset bytes) ≡ clean rs)

push-Prefixed :
    (shard : ℕ) (prev bytes : List ℕ) (r : Record) (rest : List ℕ) (x : Scan)
    → read_record shard prev bytes ≡ parsed r rest
    → Prefixed shard r.hash rest x
    → Prefixed shard prev bytes (push r x)
unfolding Prefixed
push-Prefixed shard prev bytes r rest (clean rs) e p = tt
push-Prefixed shard prev bytes r rest (rejected x) e p = tt
push-Prefixed shard prev bytes r rest spent e p = p
push-Prefixed shard prev bytes r rest (stopped rs offset why) e (low, again) =
    let a = read_record-Again shard prev bytes r rest e in
    let front = take (wire_len r + offset) bytes in
    (
      omega (arith, a.size),
      λ fuel h.
          let n = fuel - 1 in
          let more : fuel ≡ suc n = omega arith in
          ap (λ m. scan m shard prev front) more
          ∙ scan_more n shard prev front
              (omega (arith, length_take_lem (wire_len r + offset) bytes (omega (arith, a.size))))
          ∙ ap (scan_read (λ hash x. scan n shard hash x)) (a.again offset low)
          ∙ ap (push r) (again n (omega arith)),
    )

read-Prefixed :
    (shard : ℕ) (prev bytes : List ℕ) (next : List ℕ → List ℕ → Scan) (x : Read)
    → ((hash rest : List ℕ)
        → length rest < length bytes
        → Prefixed shard hash rest (next hash rest))
    → read_record shard prev bytes ≡ x
    → Prefixed shard prev bytes (scan_read next x)
unfolding Prefixed scan
read-Prefixed shard prev bytes next (torn why) ih e = (omega arith, λ fuel h. refl)
read-Prefixed shard prev bytes next (refused x) ih e = tt
read-Prefixed shard prev bytes next (parsed r rest) ih e =
    push-Prefixed shard prev bytes r rest (next r.hash rest) e
      (ih r.hash rest (omega (arith, (read_record-Again shard prev bytes r rest e).size)))

scan-Prefixed :
    (fuel shard : ℕ) (prev bytes : List ℕ)
    → length bytes ≤ fuel
    → Prefixed shard prev bytes (scan fuel shard prev bytes)
unfolding Prefixed scan
scan-Prefixed fuel shard prev [] h = tt
scan-Prefixed zero shard prev (b ∷ bytes) h = absurd (omega arith)
scan-Prefixed (suc fuel) shard prev (b ∷ bytes) h =
    read-Prefixed shard prev (b ∷ bytes) (λ hash rest. scan fuel shard hash rest)
      (read_record shard prev (b ∷ bytes))
      (λ hash rest l. scan-Prefixed fuel shard hash rest (omega arith)) refl

abbrev Ended : Opening → Type 0
Ended endless = ⊥
Ended _ = Unit

checks-Ended :
    (a b : Option HaError) (rs : List Record) → Ended (or_fails a (or_fails b (opened rs)))
checks-Ended (some e) b rs = tt
checks-Ended none (some e) rs = tt
checks-Ended none none rs = tt

module _ (shard : ℕ) (seed : List ℕ) (cut sync : Bool) where
  -- A file that the loop reads to the end.
  clean-Ended :
      (dropped : ℕ) (bytes : List ℕ) (rs : List Record)
      → scan (length bytes) shard seed bytes ≡ clean rs
      → Ended (replay 1 shard seed cut sync dropped bytes).opening
  unfolding replay conclude
  clean-Ended dropped bytes rs e = rw e (checks-Ended (check_steps rs) (check_first seed rs) rs)

  tail_branches :
      (a b c : Replayed) (d : Replayed) (p q r : Bool)
      → Ended a.opening
      → Ended b.opening
      → Ended c.opening
      → Ended d.opening
      → Ended (if p then a else if q then b else if r then c else d).opening
  tail_branches a b c d true q r x y z w = x
  tail_branches a b c d false true r x y z w = y
  tail_branches a b c d false false true x y z w = z
  tail_branches a b c d false false false x y z w = w

  conclude-Ended :
      (bytes : List ℕ) (x : Scan)
      → Prefixed shard seed bytes x
      → Ended
          (conclude
            (λ lost kept. replay 1 shard seed cut sync lost kept)
            seed
            cut
            sync
            0
            bytes
            x).opening
  unfolding Prefixed conclude drop_tail
  conclude-Ended bytes (clean rs) p = checks-Ended (check_steps rs) (check_first seed rs) rs
  conclude-Ended bytes (rejected e) p = tt
  conclude-Ended bytes spent p = p
  conclude-Ended bytes (stopped rs offset why) (low, again) =
      tail_branches _ _ _ _ (has_magic (drop 4 (drop offset bytes))) (not cut) (not sync) tt tt tt (
        clean-Ended (length bytes - offset) (take offset bytes) rs
          (again (length (take offset bytes)) (omega (arith, length_take_lem offset bytes low))))

  -- Opening a log ends, whatever the file holds: what stands before a torn record is read to the end,
  -- so that the file is cut at most once.
  pub open_log_ends : (bytes : List ℕ) → (open_log shard seed cut sync bytes).opening ≢ endless
  unfolding open_log replay
  open_log_ends bytes e = subst Ended e (
      conclude-Ended bytes (scan (length bytes) shard seed bytes)
        (scan-Prefixed (length bytes) shard seed bytes (omega arith)))
