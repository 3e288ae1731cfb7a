-- ===== src/Projection/Laws.antt =====
-- src/ha/projection.rs: what is pending is a window of the log, and a replay writes no row twice.
use rdsctl.Base.{ltb, leb, keep_if, Text, ℕ, Option, none, some, List, [], ◌∷◌}
use rdsctl.Log.{Record, Log}
use rdsctl.State.{Op}
use rdsctl.Projection.{ProjectedAudit, row_of}

-- The records that are not past `applied`, and those after `cursor`.
abbrev pub up_to : ℕ → List Record → List Record
up_to applied = keep_if (λ r. leb r.index applied)

abbrev pub after : ℕ → List Record → List Record
after cursor = keep_if (λ r. ltb cursor r.index)

module _ {Value : Type 0} (op_of : List ℕ → Option (Op Value)) (show : Value → Text) where
  abbrev add : Option ProjectedAudit → List ProjectedAudit → List ProjectedAudit
  add none rows = rows
  add (some row) rows = row ∷ rows

  -- The rows of the decisions among the records.
  unfoldable pub rows_of : List Record → List ProjectedAudit
  rows_of [] = []
  rows_of (r ∷ rs) = add (row_of op_of show r) (rows_of rs)
