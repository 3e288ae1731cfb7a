-- ===== src/Log/Replay/Records.antt =====
-- src/ha/log.rs: a record that is written and read back.
use rdsctl.Base.{
  ltb, ==_iff, Bool-cases, length, take, drop, length-append, length-drop, u64_mod, Text, codes,
  text_eq, text_eq_iff, ℕ, zero, suc, ◌+◌, ◌-◌, ◌/◌, ◌%◌, ◌^◌, ◌≤◌, ◌<◌, ◌≡◌, refl, ap, ◌∙◌, inl,
  inr, true, false, List, [], ◌∷◌, ◌++◌, arith,
}
use rdsctl.Sha256.{be_bytes8, be_bytes4}
use rdsctl.Log.{log_ver, Record, header, verify_hash}
use rdsctl.Log.Replay.{
  magic, be_value, Header, parse_header, torn, refused, parsed, broken_chain, read_checked,
  read_body, read_headed, read_record, wire_len,
}

module _ {ℓ} {A : Type ℓ} where
  pub take_front : (n : ℕ) (xs ys : List A) → length xs ≡ n → take n (xs ++ ys) ≡ xs
  take_front zero [] ys e = refl
  take_front zero (x ∷ xs) ys e = absurd (omega arith)
  take_front (suc n) [] ys e = absurd (omega arith)
  take_front (suc n) (x ∷ xs) ys e = ap (λ zs. x ∷ zs) (take_front n xs ys (omega arith))

  pub drop_front : (n : ℕ) (xs ys : List A) → length xs ≡ n → drop n (xs ++ ys) ≡ ys
  drop_front zero [] ys e = refl
  drop_front zero (x ∷ xs) ys e = absurd (omega arith)
  drop_front (suc n) [] ys e = absurd (omega arith)
  drop_front (suc n) (x ∷ xs) ys e = drop_front n xs ys (omega arith)

module _ {ℓ} {A : Type ℓ} where
  pub length-take : (n : ℕ) (xs : List A) → length (take n xs) ≤ n
  length-take zero xs = omega arith
  length-take (suc n) [] = omega arith
  length-take (suc n) (x ∷ xs) = omega (arith, length-take n xs)

  pub length_take_lem : (n : ℕ) (xs : List A) → n ≤ length xs → length (take n xs) ≡ n
  length_take_lem zero xs h = refl
  length_take_lem (suc n) [] h = absurd (omega arith)
  length_take_lem (suc n) (x ∷ xs) h = omega (arith, length_take_lem n xs (omega arith))

  take_behind :
      (k n : ℕ) (xs ys : List A) → length xs ≡ n → n ≤ k → take k (xs ++ ys) ≡ xs ++ take (k - n) ys
  take_behind k zero [] ys e h = let same : k ≡ k - 0 = omega arith in ap (λ m. take m ys) same
  take_behind k (suc n) [] ys e h = absurd (omega arith)
  take_behind k zero (x ∷ xs) ys e h = absurd (omega arith)
  take_behind zero (suc n) (x ∷ xs) ys e h = absurd (omega arith)
  take_behind (suc k) (suc n) (x ∷ xs) ys e h =
      let same : k - n ≡ suc k - suc n = omega arith in
      ap (λ zs. x ∷ zs) (take_behind k n xs ys (omega arith) (omega arith))
      ∙ ap (λ m. x ∷ (xs ++ take m ys)) same

-- The values that the fields of a record have in the source.
pub record Sized (r : Record) : Type 0 where
  pub ver : r.ver < 2 ^ 16
  pub kind : r.kind < 256
  pub flags : r.flags < 256
  pub shard : r.shard < 2 ^ 16
  pub term : r.term < u64_mod
  pub index : r.index < u64_mod
  pub prev_hash : length r.prev_hash ≡ 32
  pub payload : length r.payload < 2 ^ 32
  pub hash : length r.hash ≡ 32

be_value8 : (n : ℕ) → n < u64_mod → be_value (be_bytes8 n) ≡ n
unfolding be_bytes8
be_value8 n h = omega arith

be_value4 : (n : ℕ) → n < 2 ^ 32 → be_value (be_bytes4 n) ≡ n
unfolding be_bytes4
be_value4 n h = omega arith

be_value2 : (n : ℕ) → n < 2 ^ 16 → be_value ((n / 256 % 256) ∷ (n % 256) ∷ []) ≡ n
be_value2 n h = omega arith

pub length-header : (r : Record) → Sized r → length (header r) ≡ 62
unfolding header be_bytes8 be_bytes4
length-header r s =
    rw (length-append r.prev_hash (be_bytes4 (length r.payload % 2 ^ 32)), s.prev_hash) refl

abbrev header_of : Record → Header
header_of r = record {
  magic = magic;
  ver = r.ver;
  kind = r.kind;
  flags = r.flags;
  shard = r.shard;
  term = r.term;
  index = r.index;
  prev_hash = r.prev_hash;
  payload_len = length r.payload;
}

same_header :
    (h k : Header)
    → h.magic ≡ k.magic
    → h.ver ≡ k.ver
    → h.kind ≡ k.kind
    → h.flags ≡ k.flags
    → h.shard ≡ k.shard
    → h.term ≡ k.term
    → h.index ≡ k.index
    → h.prev_hash ≡ k.prev_hash
    → h.payload_len ≡ k.payload_len
    → h ≡ k
same_header h k a b c d e f g i j = cc

parse_header-header : (r : Record) → Sized r → parse_header (header r) ≡ header_of r
unfolding parse_header header be_bytes8 be_bytes4
parse_header-header r s =
    let size = be_bytes4 (length r.payload % 2 ^ 32) in
    same_header (parse_header (header r)) (header_of r) refl (be_value2 r.ver s.ver)
      (omega (arith, s.kind)) (omega (arith, s.flags)) (be_value2 r.shard s.shard)
      (be_value8 r.term s.term) (be_value8 r.index s.index)
      (take_front 32 r.prev_hash size s.prev_hash)
      (ap (λ x. be_value (take 4 x)) (drop_front 32 r.prev_hash size s.prev_hash)
        ∙ be_value4 (length r.payload % 2 ^ 32) (omega arith)
        ∙ omega (arith, s.payload))

-- The record continues a log of the shard behind the hash.
pub record Follows (shard : ℕ) (prev : List ℕ) (r : Record) : Type 0 where
  pub sized : Sized r
  pub this_ver : r.ver ≡ log_ver
  pub this_shard : r.shard ≡ shard
  pub follows : r.prev_hash ≡ prev
  pub verifies : verify_hash r ≡ true

read_headed_of :
    (shard : ℕ) (prev : List ℕ) (r : Record) (body : List ℕ)
    → r.ver ≡ log_ver
    → r.shard ≡ shard
    → read_headed shard prev (header_of r) body ≡ read_body prev (header_of r) body
unfolding read_headed
read_headed_of shard prev r body v h = rw (v, (==_iff r.shard shard).1 h) refl

not_short : (n : ℕ) → ltb (62 + n) 62 ≡ false
not_short n = ground arith

-- Behind a good header, the body decides.
read_body_of :
    (shard : ℕ) (prev : List ℕ) (r : Record) (body : List ℕ)
    → Sized r
    → r.ver ≡ log_ver
    → r.shard ≡ shard
    → read_record shard prev (header r ++ body) ≡ read_body prev (header_of r) body
unfolding read_record
read_body_of shard prev r body s v h =
    rw
      (
        take_front 62 (header r) body (length-header r s),
        drop_front 62 (header r) body (length-header r s),
        parse_header-header r s,
        length-append (header r) body,
        length-header r s,
        not_short (length body),
      )
      (read_headed_of shard prev r body v h)

no_less : (m n : ℕ) → ltb (m + n) m ≡ false
no_less m n = ground arith

read_checked_of :
    (prev : List ℕ) (r : Record) (rest : List ℕ)
    → verify_hash r ≡ true
    → r.prev_hash ≡ prev
    → read_checked prev r rest ≡ parsed r rest
unfolding read_checked
read_checked_of prev r rest v e = rw (v, (text_eq_iff r.prev_hash prev).1 e) refl

-- A written record is read up to the checks of its hashes.
read_written :
    (shard : ℕ) (prev : List ℕ) (r : Record) (rest : List ℕ)
    → Sized r
    → r.ver ≡ log_ver
    → r.shard ≡ shard
    → read_record shard prev (header r ++ (r.payload ++ (r.hash ++ rest)))
      ≡ read_checked prev r rest
unfolding read_body
read_written shard prev r rest s v h =
    read_body_of shard prev r (r.payload ++ (r.hash ++ rest)) s v h
    ∙ rw
        (
          take_front (length r.payload) r.payload (r.hash ++ rest) refl,
          drop_front (length r.payload) r.payload (r.hash ++ rest) refl,
          take_front 32 r.hash rest s.hash,
          drop_front 32 r.hash rest s.hash,
          length-append r.payload (r.hash ++ rest),
          length-append r.hash rest,
          s.hash,
          no_less (length r.payload) (32 + length rest),
          no_less 32 (length rest),
        )
        refl

-- A written record is read back, with the bytes behind it.
pub read_record_written :
    (shard : ℕ) (prev : List ℕ) (r : Record) (rest : List ℕ)
    → Follows shard prev r
    → read_record shard prev (header r ++ (r.payload ++ (r.hash ++ rest))) ≡ parsed r rest
read_record_written shard prev r rest c =
    read_written shard prev r rest c.sized c.this_ver c.this_shard
    ∙ read_checked_of prev r rest c.verifies c.follows

read_checked_other :
    (prev : List ℕ) (r : Record) (rest : List ℕ)
    → verify_hash r ≡ true
    → text_eq r.prev_hash prev ≡ false
    → read_checked prev r rest ≡ refused (broken_chain r)
unfolding read_checked
read_checked_other prev r rest v e = rw (v, e) refl

-- A record that follows another hash is refused.
pub read_record_other :
    (shard : ℕ) (prev seed : List ℕ) (r : Record) (rest : List ℕ)
    → Follows shard seed r
    → text_eq r.prev_hash prev ≡ false
    → read_record shard prev (header r ++ (r.payload ++ (r.hash ++ rest)))
      ≡ refused (broken_chain r)
read_record_other shard prev seed r rest c e =
    read_written shard prev r rest c.sized c.this_ver c.this_shard
    ∙ read_checked_other prev r rest c.verifies e

-- Less than the payload and the hash is torn.
read_body_torn :
    (prev : List ℕ) (h : Header) (body : List ℕ)
    → length body < h.payload_len + 32
    → (why : Text) × (read_body prev h body ≡ torn why)
unfolding read_body
read_body_torn prev h body lt = elim (Bool-cases (ltb (length body) h.payload_len)) [
  | inl e ↦ (codes "载荷不完整", rw e refl)
  | inr e ↦ (codes "哈希不完整", rw (e, short_rest) refl)
]
  where
    short_rest : ltb (length (drop h.payload_len body)) 32 ≡ true
    short_rest = ground (arith, length-drop h.payload_len body)

read_record_short :
    (shard : ℕ) (prev bytes : List ℕ)
    → length bytes < 62
    → read_record shard prev bytes ≡ torn (codes "头部不完整")
unfolding read_record
read_record_short shard prev bytes h = rw (short h) refl
  where
    short : length bytes < 62 → ltb (length bytes) 62 ≡ true
    short h = ground arith

-- A record that was written in part is torn.
pub read_record_cut :
    (shard : ℕ) (prev : List ℕ) (r : Record) (k : ℕ)
    → Sized r
    → r.ver ≡ log_ver
    → r.shard ≡ shard
    → k < wire_len r
    → (why : Text) × (read_record shard prev (take k (header r ++ (r.payload ++ r.hash)))
        ≡ torn why)
read_record_cut shard prev r k s v h lt = elim (Bool-cases (ltb k 62)) [
  | inl e ↦ (
    codes "头部不完整",
    read_record_short shard prev (take k (header r ++ (r.payload ++ r.hash)))
        (ground (arith, length-take k (header r ++ (r.payload ++ r.hash)))),
  )
  | inr e ↦
      let body = take (k - 62) (r.payload ++ r.hash) in
      let t =
        read_body_torn prev (header_of r) body
          (omega (arith, length-take (k - 62) (r.payload ++ r.hash), long k e)) in
      (
        t.0,
        ap (read_record shard prev)
              (take_behind k 62 (header r) (r.payload ++ r.hash) (length-header r s) (long k e))
            ∙ read_body_of shard prev r body s v h
            ∙ t.1,
      )
]
  where
    long : (k : ℕ) → ltb k 62 ≡ false → 62 ≤ k
    long k e = ground arith
