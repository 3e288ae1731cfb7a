-- ===== src/Base/Decimal.antt =====
-- `Display` and `FromStr` of the unsigned integers, up to 64 bits.
pub mod Laws
use rdsctl.Base.{
  ltb, leb, ◌==◌, if◌then◌else◌, Text, ℕ, zero, suc, ◌+◌, ◌-◌, ◌*◌, ◌/◌, ◌%◌, ◌&&◌, Option, none,
  some, [], ◌∷◌, ◌++◌,
}

-- The decimal digits of `n`, with fuel for the digits left: 20 are enough for 64 bits.
unfoldable pub digits : ℕ → ℕ → Text
digits zero n = []
digits (suc f) n =
    let rest = digits f (n / 10) in if ltb n 10 then (48 + n) ∷ [] else rest ++ (48 + n % 10) ∷ []

-- `n.to_string()`.
unfoldable pub display : ℕ → Text
unfolding digits
display n = digits 20 n

-- The digits of `s` after the value `n`; a value above `limit` or a character that is no digit
-- fails.
unfoldable pub scan : ℕ → Text → ℕ → Option ℕ
scan limit [] n = some n
scan limit (c ∷ s) n =
    let n' = n * 10 + (c - 48) in
    let rest = scan limit s n' in
    if leb 48 c && leb c 57 then (if leb n' limit then rest else none) else none

unfoldable pub parse_digits : ℕ → Text → Option ℕ
unfolding scan
parse_digits limit [] = none
parse_digits limit (c ∷ s) = scan limit (c ∷ s) 0

-- `s.parse()` into an unsigned type whose largest value is `limit`: one leading `+` is allowed.
unfoldable pub parse : ℕ → Text → Option ℕ
unfolding parse_digits
parse limit [] = none
parse limit (c ∷ s) = if c == b'+' then parse_digits limit s else parse_digits limit (c ∷ s)
