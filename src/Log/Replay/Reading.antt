-- ===== src/Log/Replay/Reading.antt =====
-- src/ha/log.rs: a record that was read is read again when the file is cut behind it.
use rdsctl.Base.{
  ltb, ◌==◌, if◌then◌else◌, length, take, drop, length-drop, Text, text_eq, ℕ, zero, suc, ◌+◌, ◌-◌,
  ◌≤◌, ◌≡◌, refl, sym, ap, subst, ◌∙◌, Bool, true, false, not, List, [], ◌∷◌, arith,
}
use rdsctl.Errors.{HaError}
use rdsctl.Log.{log_ver, Record, verify_hash}
use rdsctl.Log.Replay.{
  magic, Header, parse_header, Read, torn, refused, parsed, record_of, read_checked, read_body,
  read_headed, read_record, wire_len,
}
use rdsctl.Log.Replay.Records.{length_take_lem}

module _ {ℓ} {A : Type ℓ} where
  take-take : (n k : ℕ) (xs : List A) → n ≤ k → take n (take k xs) ≡ take n xs
  take-take zero k xs h = refl
  take-take (suc n) zero xs h = absurd (omega arith)
  take-take (suc n) (suc k) [] h = refl
  take-take (suc n) (suc k) (x ∷ xs) h = ap (λ zs. x ∷ zs) (take-take n k xs (omega arith))

  take_nil : (m : ℕ) → let no : List A = [] in no ≡ take m no
  take_nil zero = refl
  take_nil (suc m) = refl

  drop-take : (n k : ℕ) (xs : List A) → n ≤ k → drop n (take k xs) ≡ take (k - n) (drop n xs)
  drop-take zero k xs h = let same : k ≡ k - 0 = omega arith in ap (λ m. take m xs) same
  drop-take (suc n) zero xs h = absurd (omega arith)
  drop-take (suc n) (suc k) [] h = take_nil (suc k - suc n)
  drop-take (suc n) (suc k) (x ∷ xs) h =
      let same : k - n ≡ suc k - suc n = omega arith in
      drop-take n k xs (omega arith) ∙ ap (λ m. take m (drop n xs)) same

past_torn :
    (c : Bool) (why : Text) (y : Read) (r : Record) (rest : List ℕ)
    → (if c then torn why else y) ≡ parsed r rest
    → (c ≡ false) × (y ≡ parsed r rest)
past_torn true why y r rest e = absurd cc
past_torn false why y r rest e = (refl, e)

past_refused :
    (c : Bool) (why : HaError) (y : Read) (r : Record) (rest : List ℕ)
    → (if c then refused why else y) ≡ parsed r rest
    → (c ≡ false) × (y ≡ parsed r rest)
past_refused true why y r rest e = absurd cc
past_refused false why y r rest e = (refl, e)

-- What the checks of the header let through once, they let through with any body.
read_headed_passes :
    (shard : ℕ) (prev : List ℕ) (h : Header) (body : List ℕ) (r : Record) (rest : List ℕ)
    → read_headed shard prev h body ≡ parsed r rest
    → (read_body prev h body ≡ parsed r rest)
      × ((other : List ℕ) → read_headed shard prev h other ≡ read_body prev h other)
unfolding read_headed
read_headed_passes shard prev h body r rest e =
    let a = past_torn (not (h.magic == magic)) _ _ r rest e in
    let b = past_refused (not (h.ver == log_ver)) _ _ r rest a.1 in
    let c = past_refused (not (h.shard == shard)) _ _ r rest b.1 in
    (c.1, λ other. rw (a.0, b.0, c.0) refl)

-- The checks of the hashes do not look at what follows.
read_checked_passes :
    (prev : List ℕ) (q : Record) (next : List ℕ) (r : Record) (rest : List ℕ)
    → read_checked prev q next ≡ parsed r rest
    → (q ≡ r) × (next ≡ rest) × ((other : List ℕ) → read_checked prev q other ≡ parsed q other)
unfolding read_checked
read_checked_passes prev q next r rest e =
    let a = past_torn (not (verify_hash q)) _ _ r rest e in
    let b = past_refused (not (text_eq q.prev_hash prev)) _ _ r rest a.1 in
    let same : parsed q next ≡ parsed r rest = b.1 in (cc, cc, λ other. rw (a.0, b.0) refl)

not_less : (m n : ℕ) → n ≤ m → ltb m n ≡ false
not_less m n h = ground arith

less_not : (m n : ℕ) → ltb m n ≡ false → n ≤ m
less_not m n h = ground arith

-- The body of a record is read again from its own bytes and any more of those behind it.
body_again :
    (prev : List ℕ) (h : Header) (body : List ℕ) (k : ℕ)
    → h.payload_len + 32 ≤ k
    → k ≤ length body
    → read_body prev h (take k body)
      ≡ read_checked prev
          (record_of h (take h.payload_len body) (take 32 (drop h.payload_len body)))
          (take (k - h.payload_len - 32) (drop 32 (drop h.payload_len body)))
unfolding read_body
body_again prev h body k low high =
    let tail = drop h.payload_len body in
    let after_payload : drop h.payload_len (take k body) ≡ take (k - h.payload_len) tail =
      drop-take h.payload_len k body (omega arith) in
    rw
      (
        after_payload,
        take-take h.payload_len k body (omega arith),
        take-take 32 (k - h.payload_len) tail (omega arith),
        drop-take 32 (k - h.payload_len) tail (omega arith),
        length_take_lem k body high,
        length_take_lem (k - h.payload_len) tail (omega (arith, length-drop h.payload_len body)),
        not_less k h.payload_len (omega arith),
        not_less (k - h.payload_len) 32 (omega arith),
      )
      refl

-- A record that was read: its length, and that it is read again when the file is cut behind it.
pub record Again (shard : ℕ) (prev bytes : List ℕ) (r : Record) (rest : List ℕ) : Type 0 where
  pub size : length bytes ≡ wire_len r + length rest
  pub again :
      (o : ℕ)
      → o ≤ length rest
      → read_record shard prev (take (wire_len r + o) bytes) ≡ parsed r (take o rest)

record Body (prev : List ℕ) (h : Header) (body : List ℕ) (r : Record) (rest : List ℕ) : Type 0 where
  long_payload : h.payload_len ≤ length body
  long_hash : 32 ≤ length body - h.payload_len
  this_record : record_of h (take h.payload_len body) (take 32 (drop h.payload_len body)) ≡ r
  this_rest : drop 32 (drop h.payload_len body) ≡ rest
  checked : (other : List ℕ) → read_checked prev r other ≡ parsed r other

read_body-Body :
    (prev : List ℕ) (h : Header) (body : List ℕ) (r : Record) (rest : List ℕ)
    → read_body prev h body ≡ parsed r rest
    → Body prev h body r rest
unfolding read_body
read_body-Body prev h body r rest e =
    let tail = drop h.payload_len body in
    let q = record_of h (take h.payload_len body) (take 32 tail) in
    let a = past_torn (ltb (length body) h.payload_len) _ _ r rest e in
    let b = past_torn (ltb (length tail) 32) _ _ r rest a.1 in
    let c = read_checked_passes prev q (drop 32 tail) r rest b.1 in
    record {
      long_payload = less_not (length body) h.payload_len a.0;
      long_hash = omega (arith, less_not (length tail) 32 b.0, length-drop h.payload_len body);
      this_record = c.0;
      this_rest = c.1;
      checked = λ other. subst (λ x. read_checked prev x other ≡ parsed x other) c.0 (c.2 other);
    }

read_headed_again :
    (shard : ℕ) (prev : List ℕ) (h : Header) (body : List ℕ) (r : Record) (rest : List ℕ)
    → read_headed shard prev h body ≡ parsed r rest
    → (length body ≡ length r.payload + 32 + length rest)
      × ((o : ℕ)
          → o ≤ length rest
          → read_headed shard prev h (take (length r.payload + 32 + o) body)
            ≡ parsed r (take o rest))
read_headed_again shard prev h body r rest e =
    let p = read_headed_passes shard prev h body r rest e in
    let b = read_body-Body prev h body r rest p.0 in
    let tail = drop h.payload_len body in
    let plen : length r.payload ≡ h.payload_len =
      ap (λ x. length x.payload) (sym b.this_record)
      ∙ length_take_lem h.payload_len body b.long_payload in
    let left : length rest ≡ length body - h.payload_len - 32 =
      ap length (sym b.this_rest)
      ∙ omega (arith, length-drop 32 tail, length-drop h.payload_len body) in
    let long = b.long_hash in
    (
      omega (arith, b.long_payload),
      λ o m.
          let k = length r.payload + 32 + o in
          let cut : k - h.payload_len - 32 ≡ o = omega arith in
          p.1 (take k body)
          ∙ body_again prev h body k (omega arith) (omega (arith, b.long_payload))
          ∙ ap (λ x. read_checked prev x (take (k - h.payload_len - 32) (drop 32 tail)))
              b.this_record
          ∙ b.checked (take (k - h.payload_len - 32) (drop 32 tail))
          ∙ ap (λ n. parsed r (take n (drop 32 tail))) cut
          ∙ ap (λ x. parsed r (take o x)) b.this_rest,
    )

pub read_record-Again :
    (shard : ℕ) (prev bytes : List ℕ) (r : Record) (rest : List ℕ)
    → read_record shard prev bytes ≡ parsed r rest
    → Again shard prev bytes r rest
unfolding read_record
read_record-Again shard prev bytes r rest e =
    let h = parse_header (take 62 bytes) in
    let a = past_torn (ltb (length bytes) 62) _ _ r rest e in
    let b = read_headed_again shard prev h (drop 62 bytes) r rest a.1 in
    let long = less_not (length bytes) 62 a.0 in
    let size : length bytes ≡ wire_len r + length rest = omega (arith, b.0, length-drop 62 bytes) in
    record {
      size = size;
      again = λ o m.
          let k = wire_len r + o in
          let behind : k - 62 ≡ length r.payload + 32 + o = omega arith in
          rw
            (
              length_take_lem k bytes (omega arith),
              not_less k 62 (omega arith),
              take-take 62 k bytes (omega arith),
              drop-take 62 k bytes (omega arith),
            )
            (ap (λ n. read_headed shard prev h (take n (drop 62 bytes))) behind ∙ b.1 o m);
    }
