-- ===== src/Base/Decimal/Laws.antt =====
-- Numbers written in decimal are read back.
use native.Mathlib.Nat.{pow-suc}
use rdsctl.Base.{
  ltb, leb, if◌then◌else◌, Bool-cases, All, All-append, Text, ℕ, zero, suc, ◌+◌, ◌-◌, ◌*◌, ◌/◌, ◌%◌,
  ◌^◌, ◌≤◌, ◌<◌, ◌≡◌, refl, ◌∙◌, ◌≢◌, inl, inr, ◌&&◌, Option, none, some, [], ◌∷◌, ◌++◌, arith,
}
use rdsctl.Base.Decimal.{digits, display, scan, parse}

abbrev pub IsDigit : ℕ → Type 0
IsDigit c = (48 ≤ c) × (c ≤ 57)

digits-IsDigit : (f n : ℕ) → All IsDigit (digits f n)
unfolding digits
digits-IsDigit zero n = tt
digits-IsDigit (suc f) n = elim (Bool-cases (ltb n 10)) [
  | inl e ↦ rw e (ground arith)
  | inr e ↦ rw e (
      All-append IsDigit (digits f (n / 10)) ((48 + n % 10) ∷ []) (digits-IsDigit f (n / 10))
        (omega arith))
]

-- One more digit behind a text that was read.
abbrev push_digit : ℕ → ℕ → Option ℕ → Option ℕ
push_digit limit c none = none
push_digit limit c (some n) =
    if leb 48 c && leb c 57
    then (if leb (n * 10 + (c - 48)) limit then some (n * 10 + (c - 48)) else none)
    else none

scan-append :
    (limit c : ℕ) (s : Text) (n : ℕ)
    → scan limit (s ++ c ∷ []) n ≡ push_digit limit c (scan limit s n)
unfolding scan
scan-append limit c [] n = ground arith
scan-append limit c (d ∷ s) n = ground (arith, scan-append limit c s (n * 10 + (d - 48)))

digits_lem :
    (f n : ℕ)
    → digits (suc f) n
      ≡ (if ltb n 10 then (48 + n) ∷ [] else digits f (n / 10) ++ (48 + n % 10) ∷ [])
unfolding digits
digits_lem f n = refl

scan_digit : (limit n : ℕ) → n < 10 → n ≤ limit → scan limit ((48 + n) ∷ []) 0 ≡ some n
unfolding scan
scan_digit limit n h k = ground arith

push_last : (limit n : ℕ) → n ≤ limit → push_digit limit (48 + n % 10) (some (n / 10)) ≡ some n
push_last limit n h = ground arith

scan-digits : (f limit n : ℕ) → n ≤ limit → n < 10 ^ f → scan limit (digits f n) 0 ≡ some n
scan-digits zero limit n h k = unfold scan digits in ground arith
scan-digits (suc f) limit n h k = elim (Bool-cases (ltb n 10)) [
  | inl e ↦ rw (digits_lem, e) (scan_digit limit n (ground arith) h)
  | inr e ↦
      let k' : n < 10 ^ f * 10 = rw (pow-suc 10 f) at k in
      rw (digits_lem, e, scan-append, scan-digits f limit (n / 10) (omega arith) (omega arith))
        (push_last limit n h)
]

parse-IsDigit : (limit : ℕ) (s : Text) → All IsDigit s → s ≢ [] → parse limit s ≡ scan limit s 0
unfolding parse
parse-IsDigit limit [] d h = absurd (h refl)
parse-IsDigit limit (c ∷ s) d h = ground arith

pub display-IsDigit : (n : ℕ) → All IsDigit (display n)
unfolding display
display-IsDigit n = digits-IsDigit 20 n

pub display-ne-nil : (n : ℕ) → display n ≢ []
unfolding display
display-ne-nil n = rw digits_lem (elim (Bool-cases (ltb n 10)) [
  | inl e ↦ rw e (λ p. cc)
  | inr e ↦ rw e (append-ne-nil (digits 19 (n / 10)))
])
  where
    append-ne-nil : (s : Text) → s ++ (48 + n % 10) ∷ [] ≢ []
    append-ne-nil [] p = cc
    append-ne-nil (c ∷ s) p = cc

-- A number that the type can hold is read back from its decimal form.
pub parse-display : (limit n : ℕ) → n ≤ limit → n < 2 ^ 64 → parse limit (display n) ≡ some n
parse-display limit n h k =
    parse-IsDigit limit (display n) (display-IsDigit n) (display-ne-nil n)
    ∙ unfold display in scan-digits 20 limit n h (omega arith)
