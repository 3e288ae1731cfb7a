-- ===== src/Sha256/Laws.antt =====
-- src/sha256.rs: padding, lengths and ranges of digests, and the hexadecimal form.
use rdsctl.Base.{
  ltb, if◌then◌else◌, length, length-append, All, u64_mod, Text, codes, ℕ, zero, suc, ◌+◌, ◌-◌, ◌*◌,
  ◌/◌, ◌%◌, ◌<◌, ◌≡◌, refl, ap, List, [], ◌∷◌, ◌++◌, arith,
}
use rdsctl.Sha256.{fill, be_bytes8, be_bytes4, pad, digest, to_hex, hex_digit}

length-fill :
    (n : ℕ) (buf : List ℕ) → (120 - length buf % 64) % 64 < n → length (fill n buf) % 64 ≡ 56
unfolding fill
length-fill zero buf h = absurd (omega arith)
length-fill (suc n) buf h =
    ground (arith, length-fill n (buf ++ 0 ∷ []), length-append buf (0 ∷ []))

length-be_bytes8 : (n : ℕ) → length (be_bytes8 n) ≡ 8
unfolding be_bytes8
length-be_bytes8 n = refl

-- The padding loop ends by its test within its fuel: the padded message is cut into whole chunks
-- of 64 bytes.
pub length-pad : (bytes : List ℕ) → length (pad bytes) % 64 ≡ 0
unfolding pad
length-pad bytes =
    let buf = bytes ++ 0x80 ∷ [] in
    omega (
      arith,
      length-append (fill 64 buf) (be_bytes8 (length bytes * 8 % u64_mod)),
      length-be_bytes8 (length bytes * 8 % u64_mod),
      length-fill 64 buf (omega arith),
    )

length-be_bytes4 : (n : ℕ) → length (be_bytes4 n) ≡ 4
unfolding be_bytes4
length-be_bytes4 n = refl

abbrev pub IsByte : ℕ → Type 0
IsByte b = b < 256

be_bytes4-IsByte : (n : ℕ) → All IsByte (be_bytes4 n)
unfolding be_bytes4
be_bytes4-IsByte n = omega arith

-- A digest has 32 bytes.
pub length-digest : (bytes : List ℕ) → length (digest bytes) ≡ 32
unfolding digest be_bytes4
length-digest bytes = refl

-- A digest is a list of 32 bytes, whatever is hashed.
pub digest-IsByte : (bytes : List ℕ) → (length (digest bytes) ≡ 32) × All IsByte (digest bytes)
unfolding digest be_bytes4
digest-IsByte bytes = (refl, omega arith)

-- Reading the hexadecimal form back.
abbrev from_digit : ℕ → ℕ
from_digit c = if ltb c 58 then c - 48 else c - 87

abbrev pub from_hex : Text → List ℕ
from_hex (h ∷ l ∷ s) = (from_digit h * 16 + from_digit l) ∷ from_hex s
from_hex _ = []

from_digit-hex_digit : (d : ℕ) → from_digit (hex_digit d) ≡ d
unfolding hex_digit
from_digit-hex_digit d = ground arith

-- The hexadecimal form of bytes can be read back, and has two digits for each byte.
pub from_hex-to_hex :
    (bytes : List ℕ)
    → (from_hex (to_hex bytes) ≡ bytes) × (length (to_hex bytes) ≡ 2 * length bytes)
unfolding to_hex
from_hex-to_hex [] = (refl, refl)
from_hex-to_hex (b ∷ bytes) =
    let ih = from_hex-to_hex bytes in
    let e : from_digit (hex_digit (b / 16)) * 16 + from_digit (hex_digit (b % 16)) ≡ b =
      omega (arith, from_digit-hex_digit (b / 16), from_digit-hex_digit (b % 16)) in
    (cc (e, ih.0), omega (arith, ih.1))

-- Different digests have different hexadecimal forms.
pub to_hex-injective : (bytes other : List ℕ) → to_hex bytes ≡ to_hex other → bytes ≡ other
to_hex-injective bytes other e =
    cc ((from_hex-to_hex bytes).0, (from_hex-to_hex other).0, ap from_hex e)

abc_digest :
    to_hex (digest (codes "abc"))
    ≡ codes "ba7816bf8f01cfea414140de5dae2223b00361a396177a9cb410ff61f20015ad"
unfolding to_hex digest
abc_digest = refl
