-- ===== src/Log.antt =====
-- src/ha/log.rs: the log of a shard in memory, with its hash chain. Whether a write to the disk
-- succeeds is an argument, `true` for success.
pub mod Laws
pub mod Chain
pub mod Compaction
pub mod Replay
use rdsctl.Base.{
  ltb, ◌==◌, if◌then◌else◌, length, get_elem?, drop, first?, last?, keep_if, add64, codes, text_eq,
  ℕ, ◌-◌, ◌/◌, ◌%◌, ◌^◌, Bool, true, false, Option, none, some, List, [], ◌∷◌, ◌++◌,
}
use rdsctl.Base.Decimal
use rdsctl.Sha256.{be_bytes8, be_bytes4, digest}
use rdsctl.Errors.{HaError, io, corrupt}

abbrev pub log_ver : ℕ
log_ver = 1

abbrev pub kind_entry : ℕ
kind_entry = 1

pub record Record : Type 0 where
  pub ver : ℕ
  pub kind : ℕ
  pub flags : ℕ
  pub shard : ℕ
  pub term : ℕ
  pub index : ℕ
  pub prev_hash : List ℕ
  pub payload : List ℕ
  pub hash : List ℕ

-- `header_bytes`: the magic number is "RDSC".
header_bytes : ℕ → ℕ → ℕ → ℕ → ℕ → ℕ → List ℕ → ℕ → List ℕ
header_bytes ver kind flags shard term index prev_hash payload_len =
    be_bytes4 0x52445343
    ++ (ver / 256 % 256)
      ∷ (ver % 256)
      ∷ (kind % 256)
      ∷ (flags % 256)
      ∷ (shard / 256 % 256)
      ∷ (shard % 256)
      ∷ (be_bytes8 term ++ be_bytes8 index ++ prev_hash ++ be_bytes4 payload_len)

-- `compute_hash`: SHA-256 of the payload and then the header.
compute_hash : List ℕ → List ℕ → List ℕ
compute_hash header payload = digest (payload ++ header)

-- `Record::header`; a payload's length is cut to 32 bits.
unfoldable pub header : Record → List ℕ
unfolding header_bytes
header r =
    header_bytes r.ver r.kind r.flags r.shard r.term r.index r.prev_hash (length r.payload % 2 ^ 32)

-- `Record::encode`.
unfoldable pub encode : Record → List ℕ
unfolding header
encode r = header r ++ r.payload ++ r.hash

abbrev list_eq : List ℕ → List ℕ → Bool
list_eq = text_eq

-- `Record::verify_hash`.
unfoldable pub verify_hash : Record → Bool
unfolding header compute_hash
verify_hash r = list_eq (compute_hash (header r) r.payload) r.hash

pub record PendingEntry : Type 0 where
  pub kind : ℕ
  pub term : ℕ
  pub index : ℕ
  pub payload : List ℕ

pub record Log : Type 0 where
  pub shard : ℕ
  pub entries : List Record
  pub seed_hash : List ℕ

abbrev index_or : ℕ → Option Record → ℕ
index_or d none = d
index_or d (some r) = r.index

unfoldable pub last_index : Log → ℕ
last_index l = index_or 0 (last? l.entries)

abbrev term_or : ℕ → Option Record → ℕ
term_or d none = d
term_or d (some r) = r.term

unfoldable pub last_term : Log → ℕ
last_term l = term_or 0 (last? l.entries)

unfoldable pub first_index : Log → ℕ
unfolding last_index
first_index l = index_or (add64 (last_index l) 1) (first? l.entries)

get_from : List Record → ℕ → Option Record
get_from [] index = none
get_from (r ∷ rs) index = if ltb index r.index then none else get_elem? (r ∷ rs) (index - r.index)

unfoldable pub get : Log → ℕ → Option Record
unfolding get_from
get l index = get_from l.entries index

abbrev record_term : Option Record → Option ℕ
record_term none = none
record_term (some r) = some r.term

unfoldable pub term_at : Log → ℕ → Option ℕ
unfolding get
term_at l index = record_term (get l index)

unfoldable pub tail_from : List Record → ℕ → List Record
tail_from [] from = []
tail_from (r ∷ rs) from = if ltb from r.index then r ∷ rs else drop (from - r.index) (r ∷ rs)

unfoldable pub entries_from : Log → ℕ → List Record
unfolding tail_from
entries_from l from = tail_from l.entries from

abbrev hash_or : List ℕ → Option Record → List ℕ
hash_or seed none = seed
hash_or seed (some r) = r.hash

-- `prev_hash_for_next`.
unfoldable pub prev_hash_for_next : Log → List ℕ
prev_hash_for_next l = hash_or l.seed_hash (last? l.entries)

-- A record with the hash that its fields, the log's shard and the previous hash determine.
unfoldable pub seal : ℕ → List ℕ → Record → Record
unfolding header compute_hash
seal shard prev r =
    let chained = record r { prev_hash = prev } in
    record chained { hash = compute_hash (header (record chained { shard = shard })) r.payload }

-- The loop of `rewrite`: versions and hashes are set anew from `prev` on.
pub rechain : ℕ → List ℕ → List Record → List Record
unfolding seal
rechain shard prev [] = []
rechain shard prev (r ∷ rs) =
    let r' = seal shard prev (record r { ver = log_ver }) in r' ∷ rechain shard r'.hash rs

-- The record of a pending entry, before it is sealed.
abbrev pub pending_record : ℕ → List ℕ → PendingEntry → Record
pending_record shard prev e = record {
  ver = log_ver;
  kind = e.kind;
  flags = 0;
  shard = shard;
  term = e.term;
  index = e.index;
  prev_hash = prev;
  payload = e.payload;
  hash = [];
}

-- The loop of `append_batch` that stages the records.
unfoldable pub stage : ℕ → List ℕ → List PendingEntry → List Record
unfolding seal
stage shard prev [] = []
stage shard prev (e ∷ es) =
    let r = seal shard prev (pending_record shard prev e) in r ∷ stage shard r.hash es

-- The check that the batch continues the log.
check_indices : ℕ → List PendingEntry → Option HaError
check_indices expect [] = none
check_indices expect (e ∷ es) =
    let rest = check_indices (add64 expect 1) es in
    if e.index == expect
    then rest
    else some (
        corrupt (
          codes "追加索引不连续:期望 "
          ++ Decimal.display expect
          ++ codes ",实际 "
          ++ Decimal.display e.index
          ++ codes "(raft 指派错误)"))

append_checked : Option HaError → Log → List PendingEntry → Bool → Log × Option HaError
unfolding stage prev_hash_for_next
append_checked (some e) l batch disk = (l, some e)
append_checked none l batch false = (l, some io)
append_checked none l batch true =
    (record l { entries = l.entries ++ stage l.shard (prev_hash_for_next l) batch }, none)

-- `append_batch`.
unfoldable pub append_batch : Log → List PendingEntry → Bool → Log × Option HaError
unfolding append_checked check_indices last_index
append_batch l [] disk = (l, none)
append_batch l (e ∷ es) disk =
    append_checked (check_indices (add64 (last_index l) 1) (e ∷ es)) l (e ∷ es) disk

-- `rewrite`.
pub rewrite : Log → List Record → List ℕ → Bool → Log × Option HaError
unfolding rechain
rewrite l keep seed false = (l, some io)
rewrite l keep seed true =
    (record l { entries = rechain l.shard seed keep; seed_hash = seed }, none)

unfoldable pub truncate_suffix : Log → ℕ → Bool → Log × Option HaError
unfolding rewrite last_index
truncate_suffix l from disk =
    if ltb (last_index l) from
    then (l, none)
    else rewrite l (keep_if (λ r. ltb r.index from) l.entries) l.seed_hash disk

unfoldable pub compact_upto : Log → ℕ → List ℕ → Bool → Log × Option HaError
unfolding rewrite
compact_upto l upto snap_hash disk =
    rewrite l (keep_if (λ r. ltb upto r.index) l.entries) snap_hash disk
