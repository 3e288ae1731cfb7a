-- ===== src/State/Run.antt =====
-- The log of committed operations, applied in order.
use rdsctl.Base.{ℕ, ◌≡◌, refl, List, [], ◌∷◌, ◌++◌}
use rdsctl.State.{Op, StateMachine}
use rdsctl.State.Apply.{apply}

pub record Committed (Value : Type 0) : Type 0 where
  pub term : ℕ
  pub index : ℕ
  pub op : Op Value

module _ {Value : Type 0} where
  unfoldable pub apply_all : List (Committed Value) → StateMachine Value → StateMachine Value
  apply_all [] s = s
  apply_all (c ∷ cs) s = apply_all cs (apply c.term c.index c.op s).0

  pub apply_all-append :
      (xs ys : List (Committed Value)) (s : StateMachine Value)
      → apply_all (xs ++ ys) s ≡ apply_all ys (apply_all xs s)
  unfolding apply_all
  apply_all-append [] ys s = refl
  apply_all-append (c ∷ xs) ys s = apply_all-append xs ys (apply c.term c.index c.op s).0
