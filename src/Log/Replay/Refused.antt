-- ===== src/Log/Replay/Refused.antt =====
-- src/ha/log.rs: opening a log with another seed.
use rdsctl.Base.{
  length, length-append, All, text_eq, ℕ, suc, ◌-◌, ◌<◌, ◌≡◌, refl, sym, ap, subst, ◌∙◌, Bool,
  false, List, ◌∷◌, ◌++◌, arith,
}
use rdsctl.Log.Chain.{Chained, OfShard}
use rdsctl.Log.Replay.{broken_chain, rejected, scan_read, scan, fails, conclude, replay, open_log}
use rdsctl.Log.Replay.Laws.{encode_all, Writable, encode-append, scan_more}
use rdsctl.Log.Replay.Records.{Sized, length-header, Follows, read_record_other}
use rdsctl.Log.{log_ver, Record, header, encode, Log}

scan_other :
    (shard : ℕ) (prev seed : List ℕ) (r : Record) (rest : List ℕ)
    → Follows shard seed r
    → text_eq r.prev_hash prev ≡ false
    → scan (length (encode r ++ rest)) shard prev (encode r ++ rest) ≡ rejected (broken_chain r)
scan_other shard prev seed r rest c e =
    let bytes = header r ++ (r.payload ++ (r.hash ++ rest)) in
    let some_bytes : 0 < length bytes =
      omega (
        arith,
        length-append (header r) (r.payload ++ (r.hash ++ rest)),
        length-header r c.sized,
      ) in
    let n = length bytes - 1 in
    let size : length bytes ≡ suc n = omega arith in
    ap (λ x. scan (length x) shard prev x) (encode-append r rest)
    ∙ ap (λ m. scan m shard prev bytes) size
    ∙ scan_more n shard prev bytes some_bytes
    ∙ ap (scan_read (λ hash x. scan n shard hash x)) (read_record_other shard prev seed r rest c e)

first-Follows :
    (shard : ℕ) (prev : List ℕ) (r : Record) (rs : List Record)
    → Chained prev (r ∷ rs)
    → OfShard shard (r ∷ rs)
    → All Sized (r ∷ rs)
    → All (λ x. x.ver ≡ log_ver) (r ∷ rs)
    → Follows shard prev r
first-Follows shard prev r rs c o s v = record {
  sized = s.0;
  this_ver = v.0;
  this_shard = o.0;
  follows = c.0;
  verifies = c.1;
}

-- A log that the source can write, with at least one record, is refused when it is opened with another
-- seed than its own; the file stays as it is.
pub open_log_other_seed :
    (start : ℕ) (l : Log) (r : Record) (rs : List Record) (cut sync : Bool) (seed : List ℕ)
    → Writable start l
    → l.entries ≡ r ∷ rs
    → text_eq l.seed_hash seed ≡ false
    → open_log l.shard seed cut sync (encode_all (r ∷ rs))
      ≡ record { bytes = encode_all (r ∷ rs); dropped = 0; opening = fails (broken_chain r) }
unfolding open_log replay conclude encode_all
open_log_other_seed start l r rs cut sync seed w e n =
    let f =
      first-Follows l.shard l.seed_hash r rs (subst (Chained l.seed_hash) e w.chained.0)
        (subst (OfShard l.shard) e w.chained.1) (subst (All Sized) e w.sized)
        (subst (All (λ x. x.ver ≡ log_ver)) e w.versions) in
    rw
      (scan_other l.shard seed l.seed_hash r (encode_all rs) f
        (subst (λ h. text_eq h seed ≡ false) (sym f.follows) n))
      refl
