-- ===== src/Log/Replay.antt =====
-- src/ha/log.rs: reading the file of a log back, with its bytes as an argument.
pub mod Records
pub mod Laws
pub mod Torn
pub mod Refused
pub mod Reading
pub mod Ends
use rdsctl.Base.{
  ltb, leb, ◌==◌, if◌then◌else◌, length, take, drop, add64, Text, codes, text_eq, ℕ, zero, suc, ◌+◌,
  ◌-◌, ◌*◌, Bool, false, ◌&&◌, ◌||◌, not, Option, none, some, List, [], ◌∷◌, ◌++◌,
}
use rdsctl.Base.Decimal
use rdsctl.Errors.{HaError, io, corrupt}
use rdsctl.Log.{log_ver, Record, verify_hash}

abbrev pub magic : ℕ
magic = 0x52445343

-- `from_be_bytes`.
abbrev be_value_from : ℕ → List ℕ → ℕ
be_value_from acc [] = acc
be_value_from acc (b ∷ bs) = be_value_from (acc * 256 + b) bs

abbrev pub be_value : List ℕ → ℕ
be_value bytes = be_value_from 0 bytes

-- The bytes from one offset up to another.
abbrev pub slice : ℕ → ℕ → List ℕ → List ℕ
slice from upto bytes = take (upto - from) (drop from bytes)

pub record Header : Type 0 where
  pub magic : ℕ
  pub ver : ℕ
  pub kind : ℕ
  pub flags : ℕ
  pub shard : ℕ
  pub term : ℕ
  pub index : ℕ
  pub prev_hash : List ℕ
  pub payload_len : ℕ

unfoldable pub parse_header : List ℕ → Header
parse_header h = record {
  magic = be_value (slice 0 4 h);
  ver = be_value (slice 4 6 h);
  kind = be_value (slice 6 7 h);
  flags = be_value (slice 7 8 h);
  shard = be_value (slice 8 10 h);
  term = be_value (slice 10 18 h);
  index = be_value (slice 18 26 h);
  prev_hash = slice 26 58 h;
  payload_len = be_value (slice 58 62 h);
}

-- What the loop of `replay` makes of the bytes from an offset on.
pub data Read : Type 0 where
  torn : Text → Read
  refused : HaError → Read
  parsed : Record → List ℕ → Read

abbrev pub record_of : Header → List ℕ → List ℕ → Record
record_of h payload hash = record {
  ver = h.ver;
  kind = h.kind;
  flags = h.flags;
  shard = h.shard;
  term = h.term;
  index = h.index;
  prev_hash = h.prev_hash;
  payload = payload;
  hash = hash;
}

abbrev pub broken_chain : Record → HaError
broken_chain r =
    corrupt
      (codes "哈希链断裂:index=" ++ Decimal.display r.index ++ codes " 的 prev_hash 与上一条不符(中间损坏,拒绝启动)")

unfoldable pub read_checked : List ℕ → Record → List ℕ → Read
read_checked prev r rest =
    if not (verify_hash r)
    then torn (codes "记录哈希失配")
    else if not (text_eq r.prev_hash prev)
    then refused (broken_chain r)
    else parsed r rest

-- Behind the header.
unfoldable pub read_body : List ℕ → Header → List ℕ → Read
read_body prev h body =
    let rest = drop h.payload_len body in
    if ltb (length body) h.payload_len
    then torn (codes "载荷不完整")
    else if ltb (length rest) 32
    then torn (codes "哈希不完整")
    else read_checked prev (record_of h (take h.payload_len body) (take 32 rest)) (drop 32 rest)

-- The checks of the header.
unfoldable pub read_headed : ℕ → List ℕ → Header → List ℕ → Read
read_headed shard prev h body =
    if not (h.magic == magic)
    then torn (codes "magic 失配")
    else if not (h.ver == log_ver)
    then refused (
        corrupt (
          codes "记录格式版本不支持:文件 ver="
          ++ Decimal.display h.ver
          ++ codes ",本程序 ver="
          ++ Decimal.display log_ver
          ++ codes "(需按运维手册升级)"))
    else if not (h.shard == shard)
    then refused (
        corrupt (
          codes "分片号不符:文件 shard="
          ++ Decimal.display h.shard
          ++ codes ",期望 "
          ++ Decimal.display shard))
    else read_body prev h body

-- One round of the loop, where bytes are left.
unfoldable pub read_record : ℕ → List ℕ → List ℕ → Read
read_record shard prev bytes =
    if ltb (length bytes) 62
    then torn (codes "头部不完整")
    else read_headed shard prev (parse_header (take 62 bytes)) (drop 62 bytes)

-- `Record::wire_len`.
abbrev pub wire_len : Record → ℕ
wire_len r = 62 + length r.payload + 32

-- How the loop ends: at the end of the file, or at an offset; `spent` stands for no end.
pub data Scan : Type 0 where
  clean : List Record → Scan
  stopped : List Record → ℕ → Text → Scan
  rejected : HaError → Scan
  spent : Scan

abbrev pub push : Record → Scan → Scan
push r (clean rs) = clean (r ∷ rs)
push r (stopped rs offset why) = stopped (r ∷ rs) (wire_len r + offset) why
push r (rejected e) = rejected e
push r spent = spent

-- What the loop does with what it read, and the next rounds.
abbrev pub scan_read : (List ℕ → List ℕ → Scan) → Read → Scan
scan_read next (torn why) = stopped [] 0 why
scan_read next (refused e) = rejected e
scan_read next (parsed r rest) = push r (next r.hash rest)

-- The loop of `replay`, with fuel.
unfoldable pub scan : ℕ → ℕ → List ℕ → List ℕ → Scan
scan fuel shard prev [] = clean []
scan zero shard prev (b ∷ bytes) = spent
scan (suc fuel) shard prev (b ∷ bytes) =
    scan_read (λ hash rest. scan fuel shard hash rest) (read_record shard prev (b ∷ bytes))

-- The check of the indices behind the loop.
abbrev pub check_steps : List Record → Option HaError
check_steps [] = none
check_steps (r ∷ []) = none
check_steps (r ∷ q ∷ rs) =
    let rest = check_steps (q ∷ rs) in
    if q.index == add64 r.index 1
    then rest
    else some (
        corrupt
          (codes "日志索引不连续:" ++ Decimal.display r.index ++ codes " → " ++ Decimal.display q.index))

abbrev zeros : ℕ → List ℕ
zeros zero = []
zeros (suc n) = 0 ∷ zeros n

abbrev pub zero_hash : List ℕ
zero_hash = zeros 32

abbrev pub check_first : List ℕ → List Record → Option HaError
check_first seed [] = none
check_first seed (r ∷ rs) =
    if text_eq seed zero_hash && not (r.index == 1)
    then some (corrupt (codes "无快照时首条记录必须为 index=1,实际 " ++ Decimal.display r.index))
    else none

-- How opening a log ends; `endless` stands for no end.
pub data Opening : Type 0 where
  opened : List Record → Opening
  fails : HaError → Opening
  endless : Opening

abbrev pub or_fails : Option HaError → Opening → Opening
or_fails none o = o
or_fails (some e) o = fails e

-- The bytes of the file then, `truncated_tail_bytes`, and the log.
pub record Replayed : Type 0 where
  pub bytes : List ℕ
  pub dropped : ℕ
  pub opening : Opening

-- `has_later_record`: the magic number stands somewhere.
abbrev pub has_magic : List ℕ → Bool
has_magic (a ∷ rest) =
    let later = has_magic rest in
    (be_value (a ∷ take 3 rest) == magic && leb 3 (length rest)) || later
has_magic [] = false

-- `drop_tail`: whether the file can be cut, and then synced, are arguments, and the next replay.
unfoldable pub drop_tail : (ℕ → List ℕ → Replayed) → Bool → Bool → ℕ → List ℕ → ℕ → Text → Replayed
drop_tail again cut sync dropped bytes offset why =
    let lost = length bytes - offset in
    if has_magic (drop 4 (drop offset bytes))
    then record {
      bytes = bytes;
      dropped = dropped;
      opening = fails (
          corrupt
            (why ++ codes " 且其后仍存在合法记录(offset=" ++ Decimal.display offset ++ codes "):中间损坏,拒绝启动"));
    }
    else if not cut
    then record { bytes = bytes; dropped = lost; opening = fails io }
    else if not sync
    then record { bytes = take offset bytes; dropped = lost; opening = fails io }
    else again lost (take offset bytes)

-- The part of `replay` behind the loop.
unfoldable pub conclude :
    (ℕ → List ℕ → Replayed) → List ℕ → Bool → Bool → ℕ → List ℕ → Scan → Replayed
unfolding drop_tail
conclude again seed cut sync dropped bytes (clean rs) = record {
  bytes = bytes;
  dropped = dropped;
  opening = or_fails (check_steps rs) (or_fails (check_first seed rs) (opened rs));
}
conclude again seed cut sync dropped bytes (rejected e) = record {
  bytes = bytes;
  dropped = dropped;
  opening = fails e;
}
conclude again seed cut sync dropped bytes spent = record {
  bytes = bytes;
  dropped = dropped;
  opening = endless;
}
conclude again seed cut sync dropped bytes (stopped rs offset why) =
    drop_tail again cut sync dropped bytes offset why

-- `replay`, with fuel for the times that it is run.
unfoldable pub replay : ℕ → ℕ → List ℕ → Bool → Bool → ℕ → List ℕ → Replayed
unfolding conclude scan
replay zero shard seed cut sync dropped bytes = record {
  bytes = bytes;
  dropped = dropped;
  opening = endless;
}
replay (suc rounds) shard seed cut sync dropped bytes =
    conclude (λ lost kept. replay rounds shard seed cut sync lost kept) seed cut sync dropped bytes
      (scan (length bytes) shard seed bytes)

-- `Log::open`, behind the creation of the file.
unfoldable pub open_log : ℕ → List ℕ → Bool → Bool → List ℕ → Replayed
unfolding replay
open_log shard seed cut sync bytes = replay 2 shard seed cut sync 0 bytes
