-- ===== src/State/Steps/Keys.antt =====
-- src/ha/state.rs: the keys of the step ledger.
use mathlib.Core.List.{append_assoc}
use rdsctl.Base.{
  ◌==◌, Bool-cases, All, Text, codes, starts_with, replace, ℕ, ◌^◌, ◌<◌, ◌≡◌, refl, sym, ap, ◌∙◌,
  ◌≢◌, inl, inr, true, [], ◌∷◌, ◌++◌, arith,
}
use rdsctl.Base.Decimal
use rdsctl.Base.Decimal.Laws.{IsDigit, display-IsDigit, parse-display}
use rdsctl.State.Steps.{step_key, escape}

abbrev pub HasNoBar : Text → Type 0
HasNoBar = All (λ c. c ≢ b'|')

escape-HasNoBar : (s : Text) → HasNoBar s → escape s ≡ s
unfolding replace
escape-HasNoBar [] h = refl
escape-HasNoBar (c ∷ s) h = ground (arith, escape-HasNoBar s h.1)

-- The first bar ends a part.
cut_bar :
    (s t u v : Text) → HasNoBar s → HasNoBar t → s ++ b'|' ∷ u ≡ t ++ b'|' ∷ v → (s ≡ t) × (u ≡ v)
cut_bar [] [] u v h k e = (refl, cc)
cut_bar [] (d ∷ t) u v h k e = absurd (k.0 (cc))
cut_bar (c ∷ s) [] u v h k e = absurd (h.0 (cc))
cut_bar (c ∷ s) (d ∷ t) u v h k e = let ih = cut_bar s t u v h.1 k.1 (cc) in (cc (ih.0), ih.1)

IsDigit-HasNoBar : (s : Text) → All IsDigit s → HasNoBar s
IsDigit-HasNoBar [] h = tt
IsDigit-HasNoBar (c ∷ s) h = (omega arith, IsDigit-HasNoBar s h.1)

display-injective :
    (m n : ℕ) → m < 2 ^ 64 → n < 2 ^ 64 → Decimal.display m ≡ Decimal.display n → m ≡ n
display-injective m n hm hn e = cc (
  parse-display (2 ^ 64) m (omega arith) hm,
  parse-display (2 ^ 64) n (omega arith) hn,
  ap (Decimal.parse (2 ^ 64)) e,
)

step_key-HasNoBar :
    (t n i : Text) (step : ℕ)
    → HasNoBar t
    → HasNoBar n
    → HasNoBar i
    → step_key t n step i ≡ t ++ b'|' ∷ (n ++ b'|' ∷ (Decimal.display step ++ b'|' ∷ i))
unfolding step_key
step_key-HasNoBar t n i step ht hn hi =
    rw (escape-HasNoBar t ht, escape-HasNoBar n hn, escape-HasNoBar i hi)

-- Without bars in the texts, and with step numbers of 32 bits, steps with equal keys are equal.
pub step_key-injective :
    (t n i t' n' i' : Text) (step step' : ℕ)
    → HasNoBar t
    → HasNoBar n
    → HasNoBar i
    → HasNoBar t'
    → HasNoBar n'
    → HasNoBar i'
    → step < 2 ^ 32
    → step' < 2 ^ 32
    → step_key t n step i ≡ step_key t' n' step' i'
    → (t ≡ t') × (n ≡ n') × (step ≡ step') × (i ≡ i')
step_key-injective t n i t' n' i' step step' ht hn hi ht' hn' hi' b b' e =
    let plain =
      sym (step_key-HasNoBar t n i step ht hn hi)
      ∙ e
      ∙ step_key-HasNoBar t' n' i' step' ht' hn' hi' in
    let task = cut_bar t t' _ _ ht ht' plain in
    let node = cut_bar n n' _ _ hn hn' task.1 in
    let last =
      cut_bar (Decimal.display step) (Decimal.display step') i i'
        (IsDigit-HasNoBar _ (display-IsDigit step)) (IsDigit-HasNoBar _ (display-IsDigit step'))
        node.1 in
    (task.0, node.0, display-injective step step' (omega arith) (omega arith) last.0, last.1)

escape-append : (s : Text) (t : Text) → escape (s ++ t) ≡ escape s ++ escape t
unfolding replace
escape-append [] t = refl
escape-append (c ∷ s) t = elim (Bool-cases (c == b'|')) [
  | inl e ↦ rw (e, escape-append s t)
  | inr e ↦ rw (e, escape-append s t)
]

-- A bar in the texts makes keys ambiguous: it may end the task or begin the node.
pub step_key_collision :
    (t n i : Text) (step : ℕ) → step_key (t ++ b'|' ∷ []) n step i ≡ step_key t (b'|' ∷ n) step i
unfolding step_key
step_key_collision t n i step =
    rw escape-append (unfold replace in append_assoc (escape t) (codes "||") _)

starts_with-append : (s t p : Text) → starts_with (s ++ t) (s ++ p) ≡ starts_with t p
unfolding starts_with
starts_with-append [] t p = refl
starts_with-append (c ∷ s) t p = ground (arith, starts_with-append s t p)

starts_with_bars : (u : Text) → starts_with (b'|' ∷ u) (b'|' ∷ []) ≡ true
unfolding starts_with
starts_with_bars [] = refl
starts_with_bars (c ∷ u) = refl

-- The listing of a task's steps has those of every task whose name is the task's, a bar and more.
pub steps_of_prefix :
    (t more n i : Text) (step : ℕ)
    → starts_with (step_key (t ++ b'|' ∷ more) n step i) (escape t ++ b'|' ∷ []) ≡ true
unfolding step_key
steps_of_prefix t more n i step =
    rw (escape-append, append_assoc (escape t), starts_with-append)
      (unfold replace in starts_with_bars _)
