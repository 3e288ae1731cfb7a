-- ===== src/Log/Replay/Torn.antt =====
-- src/ha/log.rs: opening a log whose last record was written in part.
use rdsctl.Base.{
  length, take, drop, length-append, Text, ℕ, suc, ◌+◌, ◌-◌, ◌<◌, ◌≡◌, refl, ap, ◌∙◌, true, false,
  List, ◌++◌, arith,
}
use rdsctl.Log.Replay.{
  torn, read_record, wire_len, stopped, scan_read, scan, has_magic, drop_tail, conclude, replay,
  open_log,
}
use rdsctl.Log.Replay.Laws.{
  encode_all, push_all, Writable, encode_lem, scan_more, fuel_for, fuel_for_lem, length-encode,
  length-encode_all, push_all-stopped, whole, scan_file, replay-whole,
}
use rdsctl.Log.Replay.Records.{take_front, drop_front, length_take_lem, Sized, read_record_cut}
use rdsctl.Log.{log_ver, Record, encode, Log, prev_hash_for_next}

module _ (start : ℕ) (l : Log) (w : Writable start l) (r : Record) (k : ℕ) (s : Sized r)
    (v : r.ver ≡ log_ver) (h : r.shard ≡ l.shard) (some_bytes : 0 < k)
    (not_all : k < wire_len r) where
  abbrev part : List ℕ
  part = take k (encode r)

  length-part : length part ≡ k
  length-part = length_take_lem k (encode r) (omega (arith, length-encode r s))

  part_torn : (why : Text) × (read_record l.shard (prev_hash_for_next l) part ≡ torn why)
  part_torn =
      let t = read_record_cut l.shard (prev_hash_for_next l) r k s v h not_all in
      (t.0, ap (λ x. read_record l.shard (prev_hash_for_next l) (take k x)) (encode_lem r) ∙ t.1)

  scan-part :
      scan
        (length (encode_all l.entries ++ part))
        l.shard
        l.seed_hash
        (encode_all l.entries ++ part)
      ≡ stopped l.entries (length (encode_all l.entries)) part_torn.0
  scan-part =
      let n = length (encode_all l.entries) + k - length l.entries - 1 in
      let enough : length (encode_all l.entries ++ part) ≡ fuel_for l.entries (suc n) = omega (
        arith,
        length-append (encode_all l.entries) part,
        length-part,
        fuel_for_lem l.entries (suc n),
        length-encode_all l.entries w.sized,
      ) in
      ap (λ m. scan m l.shard l.seed_hash (encode_all l.entries ++ part)) enough
      ∙ scan_file start l w (suc n) part
      ∙ ap (push_all l.entries) (
          scan_more n l.shard (prev_hash_for_next l) part (omega (arith, length-part))
          ∙ ap (scan_read (λ hash rest. scan n l.shard hash rest)) part_torn.1)
      ∙ push_all-stopped l.entries part_torn.0 w.sized

  -- A last record that was written in part is dropped, the file is cut there, and the records before
  -- it are the log, when the magic number does not stand in the part behind its first four bytes.
  pub open_log_torn :
      has_magic (drop 4 part) ≡ false
      → open_log l.shard l.seed_hash true true (encode_all l.entries ++ part) ≡ whole l k
  unfolding open_log replay conclude drop_tail
  open_log_torn clear =
      rw
        (
          scan-part,
          drop_front (length (encode_all l.entries)) (encode_all l.entries) part refl,
          take_front (length (encode_all l.entries)) (encode_all l.entries) part refl,
          clear,
        )
        (replay-whole start l w 0 true true
            (length (encode_all l.entries ++ part) - length (encode_all l.entries))
          ∙ ap (whole l) (omega (arith, length-append (encode_all l.entries) part, length-part)))
