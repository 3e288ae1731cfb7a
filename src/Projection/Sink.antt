-- ===== src/Projection/Sink.antt =====
-- src/main.rs: the round of the leader that writes the rows to the audit table. The table is the list
-- of the params of its rows. For the row of an index, `answers` tells whether the query for its marker
-- succeeds and `written` whether its write does; a write that fails is only logged.
use rdsctl.Base.{
  if◌then◌else◌, last?, any, Text, starts_with, ℕ, Bool, true, false, Option, none, some, List, [],
  ◌∷◌, ◌++◌,
}
use rdsctl.Projection.{marker, ProjectedAudit, Projector, commit}

-- `params LIKE '<marker> %'`.
abbrev pub has_marker : Text → Text → Bool
has_marker mk params = starts_with params (mk ++ 32 ∷ [])

-- A query that fails finds no marker.
unfoldable pub audit_marker_exists : Bool → Text → List Text → Bool
unfolding starts_with
audit_marker_exists true mk table = any (has_marker mk) table
audit_marker_exists false mk table = false

unfoldable pub write_row : (ℕ → Bool) → (ℕ → Bool) → ProjectedAudit → List Text → List Text
unfolding audit_marker_exists marker
write_row answers written row table =
    if audit_marker_exists (answers row.index) (marker row.shard row.index) table
    then table
    else if written row.index
    then table ++ row.params ∷ []
    else table

unfoldable pub write_rows : (ℕ → Bool) → (ℕ → Bool) → List ProjectedAudit → List Text → List Text
unfolding write_row
write_rows answers written [] table = table
write_rows answers written (row ∷ rows) table =
    write_rows answers written rows (write_row answers written row table)

abbrev pub commit_last : Option ProjectedAudit → Bool → Projector → Projector
commit_last none disk p = p
commit_last (some row) disk p = (commit row.index disk p).0

-- The rows are written, and the cursor goes to the last one of them.
unfoldable pub sink_round :
    (ℕ → Bool)
    → (ℕ → Bool)
    → Bool
    → List ProjectedAudit
    → Projector
    → List Text
    → Projector × List Text
unfolding write_rows commit
sink_round answers written disk rows p table =
    (commit_last (last? rows) disk p, write_rows answers written rows table)
