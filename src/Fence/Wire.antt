-- ===== src/Fence/Wire.antt =====
-- src/ha/mod.rs: the wire format `<shard>:<term>:<index>` of a fence.
use mathlib.Core.List.{append-nil}
use rdsctl.Base.{
  All, All-append, u64_max, Text, trim_start, trim_end, trim, split, ℕ, ◌-◌, ◌^◌, ◌≤◌, ◌<◌, ◌≡◌,
  refl, sym, ◌≢◌, Option, none, some, List, [], ◌∷◌, ◌++◌, arith,
}
use rdsctl.Base.Decimal
use rdsctl.Base.Decimal.Laws.{IsDigit, display-IsDigit, display-ne-nil, parse-display}
use rdsctl.Fence.{Fence}

abbrev pub u16_max : ℕ
u16_max = 2 ^ 16 - 1

-- `Fence::wire`.
unfoldable pub wire : Fence → Text
wire f =
    Decimal.display f.shard ++ b':' ∷ (Decimal.display f.term ++ b':' ∷ Decimal.display f.index)

abbrev from_parts : Option ℕ → Option ℕ → Option ℕ → Option Fence
from_parts (some s) (some t) (some i) = some (record { shard = s; term = t; index = i })
from_parts _ _ _ = none

-- The three parts that `it.next()` yields, and no fourth.
parse_parts : List Text → Option Fence
parse_parts (s ∷ t ∷ i ∷ []) =
    from_parts (Decimal.parse u16_max s) (Decimal.parse u64_max t) (Decimal.parse u64_max i)
parse_parts _ = none

-- `Fence::parse`.
unfoldable pub parse : Text → Option Fence
unfolding parse_parts
parse s = parse_parts (split (trim s) b':')

-- The fields fit their types.
pub record IsWord (f : Fence) : Type 0 where
  pub shard_fits : f.shard < 2 ^ 16
  pub term_fits : f.term < 2 ^ 64
  pub index_fits : f.index < 2 ^ 64

-- No character of the text is white space.
abbrev IsVisible : ℕ → Type 0
IsVisible c = (33 ≤ c) × (c ≤ 126)

trim_end-visible : (s : Text) → All IsVisible s → trim_end s ≡ s
unfolding trim_end
trim_end-visible [] h = refl
trim_end-visible (c ∷ []) h = ground arith
trim_end-visible (c ∷ d ∷ s) h = rw (trim_end-visible (d ∷ s) h.1)

trim_end-newline : (s : Text) → All IsVisible s → trim_end (s ++ 10 ∷ []) ≡ s
unfolding trim_end
trim_end-newline [] h = refl
trim_end-newline (c ∷ []) h = ground arith
trim_end-newline (c ∷ d ∷ s) h = rw (trim_end-newline (d ∷ s) h.1)

trim_start-visible : (s t : Text) → All IsVisible s → s ≢ [] → trim_start (s ++ t) ≡ s ++ t
unfolding trim_start
trim_start-visible [] t h n = absurd (n refl)
trim_start-visible (c ∷ s) t h n = ground arith

split-digits : (s : Text) → All IsDigit s → split s b':' ≡ s ∷ []
unfolding split
split-digits [] h = refl
split-digits (c ∷ s) h = ground (arith, split-digits s h.1)

split-colon : (s t : Text) → All IsDigit s → split (s ++ b':' ∷ t) b':' ≡ s ∷ split t b':'
unfolding split
split-colon [] t h = refl
split-colon (c ∷ s) t h = ground (arith, split-colon s t h.1)

IsDigit-IsVisible : (s : Text) → All IsDigit s → All IsVisible s
IsDigit-IsVisible [] h = tt
IsDigit-IsVisible (c ∷ s) h = (omega arith, IsDigit-IsVisible s h.1)

wire-IsVisible : (f : Fence) → All IsVisible (wire f)
unfolding wire
wire-IsVisible f =
    All-append IsVisible (Decimal.display f.shard) _ (IsDigit-IsVisible _ (display-IsDigit f.shard))
      (
        omega arith,
        All-append IsVisible (Decimal.display f.term) _
            (IsDigit-IsVisible _ (display-IsDigit f.term))
            (omega arith, IsDigit-IsVisible _ (display-IsDigit f.index)),
      )

append-ne-nil : (s t : Text) → s ≢ [] → s ++ t ≢ []
append-ne-nil [] t h = absurd (h refl)
append-ne-nil (c ∷ s) t h = λ p. cc

wire-ne-nil : (f : Fence) → wire f ≢ []
unfolding wire
wire-ne-nil f = append-ne-nil _ _ (display-ne-nil f.shard)

parse_parts-wire : (f : Fence) → IsWord f → parse_parts (split (wire f) b':') ≡ some f
unfolding parse_parts wire
parse_parts-wire f w = rw (
  split-colon _ _ (display-IsDigit f.shard),
  split-colon _ _ (display-IsDigit f.term),
  split-digits _ (display-IsDigit f.index),
  parse-display u16_max f.shard (ground arith) (ground arith),
  parse-display u64_max f.term (ground arith) (ground arith),
  parse-display u64_max f.index (ground arith) (ground arith),
)

-- A fence whose fields fit their types is read back from its wire form.
pub parse-wire : (f : Fence) → IsWord f → parse (wire f) ≡ some f
unfolding parse trim
parse-wire f w =
    rw
      (
        sym (append-nil (wire f)),
        trim_start-visible (wire f) [] (wire-IsVisible f) (wire-ne-nil f),
        append-nil,
        trim_end-visible (wire f) (wire-IsVisible f),
      )
      (parse_parts-wire f w)

-- Reading a file that holds the wire form and a newline.
pub trim-wire_line : (f : Fence) → trim (wire f ++ 10 ∷ []) ≡ wire f
unfolding trim
trim-wire_line f = rw (
  trim_start-visible (wire f) (10 ∷ []) (wire-IsVisible f) (wire-ne-nil f),
  trim_end-newline (wire f) (wire-IsVisible f),
)
