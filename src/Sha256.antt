-- ===== src/Sha256.antt =====
-- src/sha256.rs: the hash SHA-256 over lists of bytes. A `u32` is a number below 2 ^ 32.
pub mod Laws
use Prim.Native.Nat.{bit_and, bit_or, bit_xor}
use rdsctl.Base.{
  ltb, leb, ◌==◌, if◌then◌else◌, unwrap_or, length, get_elem?, take, drop, u64_mod, add32, Text, ℕ,
  zero, suc, ◌+◌, ◌-◌, ◌*◌, ◌/◌, ◌%◌, ◌^◌, true, false, List, [], ◌∷◌, ◌++◌,
}

abbrev round_constants : List ℕ
round_constants =
    0x428a2f98 ∷ 0x71374491 ∷ 0xb5c0fbcf ∷ 0xe9b5dba5 ∷ 0x3956c25b ∷ 0x59f111f1 ∷ 0x923f82a4
    ∷ 0xab1c5ed5 ∷ 0xd807aa98 ∷ 0x12835b01 ∷ 0x243185be ∷ 0x550c7dc3 ∷ 0x72be5d74 ∷ 0x80deb1fe
    ∷ 0x9bdc06a7 ∷ 0xc19bf174 ∷ 0xe49b69c1 ∷ 0xefbe4786 ∷ 0x0fc19dc6 ∷ 0x240ca1cc ∷ 0x2de92c6f
    ∷ 0x4a7484aa ∷ 0x5cb0a9dc ∷ 0x76f988da ∷ 0x983e5152 ∷ 0xa831c66d ∷ 0xb00327c8 ∷ 0xbf597fc7
    ∷ 0xc6e00bf3 ∷ 0xd5a79147 ∷ 0x06ca6351 ∷ 0x14292967 ∷ 0x27b70a85 ∷ 0x2e1b2138 ∷ 0x4d2c6dfc
    ∷ 0x53380d13 ∷ 0x650a7354 ∷ 0x766a0abb ∷ 0x81c2c92e ∷ 0x92722c85 ∷ 0xa2bfe8a1 ∷ 0xa81a664b
    ∷ 0xc24b8b70 ∷ 0xc76c51a3 ∷ 0xd192e819 ∷ 0xd6990624 ∷ 0xf40e3585 ∷ 0x106aa070 ∷ 0x19a4c116
    ∷ 0x1e376c08 ∷ 0x2748774c ∷ 0x34b0bcb5 ∷ 0x391c0cb3 ∷ 0x4ed8aa4a ∷ 0x5b9cca4f ∷ 0x682e6ff3
    ∷ 0x748f82ee ∷ 0x78a5636f ∷ 0x84c87814 ∷ 0x8cc70208 ∷ 0x90befffa ∷ 0xa4506ceb ∷ 0xbef9a3f7
    ∷ 0xc67178f2 ∷ []

-- The eight working variables, and the hash state.
pub record Registers : Type 0 where
  pub a : ℕ
  pub b : ℕ
  pub c : ℕ
  pub d : ℕ
  pub e : ℕ
  pub f : ℕ
  pub g : ℕ
  pub h : ℕ

abbrev initial_state : Registers
initial_state = record {
  a = 0x6a09e667;
  b = 0xbb67ae85;
  c = 0x3c6ef372;
  d = 0xa54ff53a;
  e = 0x510e527f;
  f = 0x9b05688c;
  g = 0x1f83d9ab;
  h = 0x5be0cd19;
}

-- `(x >> n) | (x << (32 - n))`.
rotr : ℕ → ℕ → ℕ
rotr x n = bit_or (x / 2 ^ n) (x * 2 ^ (32 - n) % 2 ^ 32)

-- The `i`-th word; the schedule never reads past its end.
word : List ℕ → ℕ → ℕ
word w i = unwrap_or (get_elem? w i) 0

-- The first sixteen words of the schedule: `u32::from_be_bytes` of each four bytes.
words : List ℕ → List ℕ
words (p ∷ q ∷ r ∷ s ∷ rest) = (((p * 256 + q) * 256 + r) * 256 + s) ∷ words rest
words _ = []

next_word : List ℕ → ℕ → ℕ
unfolding rotr word
next_word w i =
    let x = word w (i - 15) in
    let s0 = bit_xor (bit_xor (rotr x 7) (rotr x 18)) (x / 2 ^ 3) in
    let y = word w (i - 2) in
    let s1 = bit_xor (bit_xor (rotr y 17) (rotr y 19)) (y / 2 ^ 10) in
    add32 (add32 (add32 (word w (i - 16)) s0) (word w (i - 7))) s1

-- `for i in 16..64`: the rounds left, and the index of the next word.
schedule : ℕ → ℕ → List ℕ → List ℕ
unfolding next_word
schedule zero i w = w
schedule (suc n) i w = schedule n (i + 1) (w ++ next_word w i ∷ [])

-- One of the 64 rounds, with its constant and its word.
round : Registers → ℕ → ℕ → Registers
unfolding rotr
round r k w = record {
  a = add32 t1 t2;
  b = r.a;
  c = r.b;
  d = r.c;
  e = add32 r.d t1;
  f = r.e;
  g = r.f;
  h = r.g;
}
  where
    s1 : ℕ
    s1 = bit_xor (bit_xor (rotr r.e 6) (rotr r.e 11)) (rotr r.e 25)

    ch : ℕ
    ch = bit_xor (bit_and r.e r.f) (bit_and (2 ^ 32 - 1 - r.e) r.g)

    t1 : ℕ
    t1 = add32 (add32 (add32 (add32 r.h s1) ch) k) w

    s0 : ℕ
    s0 = bit_xor (bit_xor (rotr r.a 2) (rotr r.a 13)) (rotr r.a 22)

    maj : ℕ
    maj = bit_xor (bit_xor (bit_and r.a r.b) (bit_and r.a r.c)) (bit_and r.b r.c)

    t2 : ℕ
    t2 = add32 s0 maj

rounds : List ℕ → List ℕ → Registers → Registers
unfolding round
rounds (k ∷ ks) (w ∷ ws) r = rounds ks ws (round r k w)
rounds _ _ r = r

compress : Registers → List ℕ → Registers
unfolding words schedule rounds
compress s block = record {
  a = add32 s.a r.a;
  b = add32 s.b r.b;
  c = add32 s.c r.c;
  d = add32 s.d r.d;
  e = add32 s.e r.e;
  f = add32 s.f r.f;
  g = add32 s.g r.g;
  h = add32 s.h r.h;
}
  where
    r : Registers
    r = rounds round_constants (schedule 48 16 (words block)) s

-- `while buf.len() % 64 != 56 { buf.push(0) }`, with fuel.
pub fill : ℕ → List ℕ → List ℕ
fill zero buf = buf
fill (suc n) buf = elim (length buf % 64 == 56) [ true ↦ buf | false ↦ fill n (buf ++ 0 ∷ []) ]

-- `n.to_be_bytes()` of a 64-bit and of a 32-bit word.
unfoldable pub be_bytes8 : ℕ → List ℕ
be_bytes8 n =
    (n / 2 ^ 56 % 256)
    ∷ (n / 2 ^ 48 % 256)
    ∷ (n / 2 ^ 40 % 256)
    ∷ (n / 2 ^ 32 % 256)
    ∷ (n / 2 ^ 24 % 256)
    ∷ (n / 2 ^ 16 % 256)
    ∷ (n / 2 ^ 8 % 256)
    ∷ (n % 256)
    ∷ []

unfoldable pub be_bytes4 : ℕ → List ℕ
be_bytes4 n = (n / 2 ^ 24 % 256) ∷ (n / 2 ^ 16 % 256) ∷ (n / 2 ^ 8 % 256) ∷ (n % 256) ∷ []

-- The message with its padding and its length in bits.
pub pad : List ℕ → List ℕ
unfolding fill be_bytes8
pad bytes = fill 64 (bytes ++ 0x80 ∷ []) ++ be_bytes8 (length bytes * 8 % u64_mod)

-- `for chunk in buf.chunks_exact(64)`, with fuel for the chunks left.
chunks : ℕ → List ℕ → Registers → Registers
unfolding compress
chunks zero buf s = s
chunks (suc n) buf s =
    let next = compress s (take 64 buf) in
    elim (leb 64 (length buf)) [ true ↦ chunks n (drop 64 buf) next | false ↦ s ]

-- `digest`.
pub digest : List ℕ → List ℕ
unfolding pad chunks be_bytes4
digest bytes =
    be_bytes4 s.a
    ++ be_bytes4 s.b
    ++ be_bytes4 s.c
    ++ be_bytes4 s.d
    ++ be_bytes4 s.e
    ++ be_bytes4 s.f
    ++ be_bytes4 s.g
    ++ be_bytes4 s.h
  where
    buf : List ℕ
    buf = pad bytes

    s : Registers
    s = chunks (length buf / 64) buf initial_state

-- A lower-case hexadecimal digit.
hex_digit : ℕ → ℕ
hex_digit d = if ltb d 10 then 48 + d else 87 + d

-- `to_hex`: two digits for each byte.
unfoldable pub to_hex : List ℕ → Text
unfolding hex_digit
to_hex [] = []
to_hex (b ∷ bytes) = hex_digit (b / 16) ∷ hex_digit (b % 16) ∷ to_hex bytes
