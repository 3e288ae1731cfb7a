-- ===== src/State/Apply/Refusals.antt =====
-- src/ha/state.rs: refused operations, and the fields that no operation touches.
use rdsctl.Base.{ℕ, ◌≡◌, ◌≢◌, arith}
use rdsctl.State.{ok, Op, put, StateMachine}
use rdsctl.State.Apply.{apply}

module _ {Value : Type 0} where
  -- An operation that is refused, or finds its step done, changes nothing but the applied position.
  pub refused_unchanged :
      (term index : ℕ) (op : Op Value) (s : StateMachine Value)
      → (apply term index op s).1 ≢ ok
      → (apply term index op s).0 ≡ record s { applied_index = index; applied_term = term }
  unfolding apply
  refused_unchanged term index (put k v e) s h = ground arith
  refused_unchanged term index _ s h = ground arith
