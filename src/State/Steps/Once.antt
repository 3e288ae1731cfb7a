-- ===== src/State/Steps/Once.antt =====
-- src/ha/state.rs: a step has its effect once.
use rdsctl.Base.{
  Option-cases, add32, Text, text_eq_iff, text_eq_refl, ℕ, ◌≡◌, refl, ap, ◌∙◌, inl, inr, Option,
  some, List, [], ◌∷◌, arith, text_key,
}
use rdsctl.Base.Map
use rdsctl.Base.Map.{Map, get-insert}
use rdsctl.State.{
  ok, step_already_done, done, StepRecord, Op, put, step_begin, step_done, StateMachine,
}
use rdsctl.State.Apply.{apply}
use rdsctl.State.Run.{Committed, apply_all}
use rdsctl.State.Steps.{step_key, first_attempt, finished, finished_unseen, apply_begin, apply_done}

module _ {Value : Type 0} where
  abbrev pub step_at : Text → StateMachine Value → Option (StepRecord Value)
  step_at k s = Map.get k s.steps

  done-begin :
      (k j : Text) (index : ℕ) (s : StateMachine Value) (r : StepRecord Value)
      → step_at k s ≡ some r
      → r.state ≡ done
      → step_at k (apply_begin j index s).0 ≡ some r
  unfolding apply_begin
  done-begin k j index s r before d = elim (Option-cases (step_at j s)) [
    | inl e ↦
        ground
          (arith, text_eq_iff j k, get-insert j k (first_attempt {Value = Value} index) s.steps)
    | inr (cur, e) ↦ ground (
      arith,
      text_eq_iff j k,
      get-insert j k (record cur { attempts = add32 cur.attempts 1 }) s.steps,
    )
  ]

  done-done :
      (k j : Text) (v : Value) (index : ℕ) (s : StateMachine Value) (r : StepRecord Value)
      → step_at k s ≡ some r
      → r.state ≡ done
      → step_at k (apply_done j v index s).0 ≡ some r
  unfolding apply_done
  done-done k j v index s r before d = elim (Option-cases (step_at j s)) [
    | inl e ↦ ground (arith, text_eq_iff j k, get-insert j k (finished_unseen v index) s.steps)
    | inr (cur, e) ↦ ground (arith, text_eq_iff j k, get-insert j k (finished cur v index) s.steps)
  ]

  -- A finished step is left alone by every operation.
  done-apply :
      (k : Text) (term index : ℕ) (op : Op Value) (s : StateMachine Value) (r : StepRecord Value)
      → step_at k s ≡ some r
      → r.state ≡ done
      → step_at k (apply term index op s).0 ≡ some r
  unfolding apply
  done-apply k term index (step_begin task node step idem) s r before d =
      done-begin k (step_key task node step idem) index s r before d
  done-apply k term index (step_done task node step idem v) s r before d =
      done-done k (step_key task node step idem) v index s r before d
  done-apply k term index (put key v e) s r before d = ground arith
  done-apply k term index _ s r before d = ground arith

  pub done-apply_all :
      (k : Text) (cs : List (Committed Value)) (s : StateMachine Value) (r : StepRecord Value)
      → step_at k s ≡ some r
      → r.state ≡ done
      → step_at k (apply_all cs s) ≡ some r
  unfolding apply_all
  done-apply_all k [] s r before d = before
  done-apply_all k (c ∷ cs) s r before d =
      done-apply_all k cs (apply c.term c.index c.op s).0 r
        (done-apply k c.term c.index c.op s r before d) d

  -- What an applied `StepDone` writes.
  done_writes :
      (k : Text) (v : Value) (index : ℕ) (s : StateMachine Value)
      → (apply_done k v index s).1 ≡ ok
      → (r : StepRecord Value) × (step_at k (apply_done k v index s).0 ≡ some r)
        × (r.state ≡ done)
        × (r.result ≡ some v)
  unfolding apply_done
  done_writes k v index s h = elim (Option-cases (step_at k s)) [
    | inl e ↦ (
      finished_unseen v index,
      ground (arith, text_eq_refl k, get-insert k k (finished_unseen v index) s.steps),
      refl,
      refl,
    )
    | inr (cur, e) ↦ (
      finished cur v index,
      ground (arith, text_eq_refl k, get-insert k k (finished cur v index) s.steps),
      refl,
      refl,
    )
  ]

  begin_after_done :
      (k : Text) (index : ℕ) (s : StateMachine Value) (r : StepRecord Value)
      → step_at k s ≡ some r
      → r.state ≡ done
      → apply_begin k index s ≡ (s, step_already_done r.result)
  unfolding apply_begin
  begin_after_done k index s r e d = rw e (ground arith)

  done_after_done :
      (k : Text) (v : Value) (index : ℕ) (s : StateMachine Value) (r : StepRecord Value)
      → step_at k s ≡ some r
      → r.state ≡ done
      → apply_done k v index s ≡ (s, step_already_done r.result)
  unfolding apply_done
  done_after_done k v index s r e d = rw e (ground arith)

  -- A step has its effect once: after an applied `StepDone` with the result `v`, and whatever
  -- operations follow, `StepBegin` and `StepDone` for the same key change nothing and answer that the
  -- step is done, with the first result `v`.
  pub effect_once :
      (k : Text) (v w : Value) (index later : ℕ) (s : StateMachine Value)
      (cs : List (Committed Value))
      → (apply_done k v index s).1 ≡ ok
      → let s' = apply_all cs (apply_done k v index s).0 in
        (apply_begin k later s' ≡ (s', step_already_done (some v)))
        × (apply_done k w later s' ≡ (s', step_already_done (some v)))
  effect_once k v w index later s cs h =
      let (r, written, d, e) = done_writes k v index s h in
      let kept = done-apply_all k cs (apply_done k v index s).0 r written d in
      let s' = apply_all cs (apply_done k v index s).0 in
      (
        begin_after_done k later s' r kept d ∙ ap (λ x. (s', step_already_done x)) e,
        done_after_done k w later s' r kept d ∙ ap (λ x. (s', step_already_done x)) e,
      )
