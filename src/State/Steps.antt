-- ===== src/State/Steps.antt =====
-- src/ha/state.rs: the ledger of steps; `Op::StepBegin` and `Op::StepDone`.
pub mod Once
pub mod Keys
use rdsctl.Base.{
  add32, Text, codes, starts_with, replace, ℕ, Option, none, some, [], ◌∷◌, ◌++◌, text_key,
}
use rdsctl.Base.Decimal
use rdsctl.Base.Map
use rdsctl.Base.Map.{Map}
use rdsctl.State.{
  Applied, ok, step_already_done, StepState, started, done, StepRecord, StateMachine,
}

abbrev escape : Text → Text
escape s = replace s b'|' (codes "||")

-- `step_key`.
unfoldable pub step_key : Text → Text → ℕ → Text → Text
step_key task_id node step idem_key =
    escape task_id
    ++ b'|' ∷ (escape node ++ b'|' ∷ (Decimal.display step ++ b'|' ∷ escape idem_key))

module _ {Value : Type 0} where
  abbrev pub first_attempt : ℕ → StepRecord Value
  first_attempt index = record {
    state = started;
    attempts = 1;
    result = none;
    started_index = index;
    done_index = none;
  }

  -- What `StepDone` writes over a started step, and where no step was begun.
  abbrev pub finished : StepRecord Value → Value → ℕ → StepRecord Value
  finished r result index = record r { state = done; result = some result; done_index = some index }

  abbrev pub finished_unseen : Value → ℕ → StepRecord Value
  finished_unseen result index = record {
    state = done;
    attempts = 0;
    result = some result;
    started_index = index;
    done_index = some index;
  }

  abbrev write_step :
      Text → StepRecord Value → StateMachine Value → StateMachine Value × Applied Value
  write_step k r s = (record s { steps = Map.insert k r s.steps }, ok)

  begin_state :
      StepState → StepRecord Value → Text → StateMachine Value → StateMachine Value × Applied Value
  begin_state done r k s = (s, step_already_done r.result)
  begin_state started r k s = write_step k (record r { attempts = add32 r.attempts 1 }) s

  begin_found :
      Option (StepRecord Value) → Text → ℕ → StateMachine Value → StateMachine Value × Applied Value
  unfolding begin_state
  begin_found none k index s = write_step k (first_attempt index) s
  begin_found (some r) k index s = begin_state r.state r k s

  unfoldable pub apply_begin : Text → ℕ → StateMachine Value → StateMachine Value × Applied Value
  unfolding begin_found
  apply_begin k index s = begin_found (Map.get k s.steps) k index s

  done_state :
      StepState
      → StepRecord Value
      → Text
      → Value
      → ℕ
      → StateMachine Value
      → StateMachine Value × Applied Value
  done_state done r k result index s = (s, step_already_done r.result)
  done_state started r k result index s = write_step k (finished r result index) s

  done_found :
      Option (StepRecord Value)
      → Text
      → Value
      → ℕ
      → StateMachine Value
      → StateMachine Value × Applied Value
  unfolding done_state
  done_found none k result index s = write_step k (finished_unseen result index) s
  done_found (some r) k result index s = done_state r.state r k result index s

  unfoldable pub apply_done :
      Text → Value → ℕ → StateMachine Value → StateMachine Value × Applied Value
  unfolding done_found
  apply_done k result index s = done_found (Map.get k s.steps) k result index s

  -- `step_record`.
  unfoldable pub step_record :
      StateMachine Value → Text → Text → ℕ → Text → Option (StepRecord Value)
  step_record s task_id node step idem_key = Map.get (step_key task_id node step idem_key) s.steps

  -- `steps_of`: the entries whose key starts with the escaped task and a bar.
  unfoldable pub steps_of : StateMachine Value → Text → Map Text (StepRecord Value)
  steps_of s task_id = Map.retain (λ k r. starts_with k (escape task_id ++ b'|' ∷ [])) s.steps
