-- ===== src/Examples/Projections.antt =====
-- A concrete log and audit table of src/ha/projection.rs and src/main.rs.
use rdsctl.Base.{
  Text, codes, ℕ, zero, suc, ◌≤◌, ◌≡◌, refl, true, false, Option, none, some, List, [], ◌∷◌, arith,
}
use rdsctl.State.{Op, noop, lease_release}
use rdsctl.Log.{Record, Log}
use rdsctl.Projection.{marker, ProjectedAudit, base, pending, Projector}
use rdsctl.Projection.Sink.{write_rows, sink_round}
use rdsctl.Projection.Once.{count_marker, pending_once, sink_round_lost}

-- Payload 1 is a release, every other payload no decision.
abbrev read_op : List ℕ → Option (Op (Unit {0}))
read_op (suc zero ∷ t) = some (lease_release (codes "d") (codes "a"))
read_op p = some noop

abbrev show_unit : Unit {0} → Text
show_unit v = codes "null"

abbrev plain_record : ℕ → ℕ → Record
plain_record index op = record {
  ver = 1;
  kind = 1;
  flags = 0;
  shard = 0;
  term = 1;
  index = index;
  prev_hash = [];
  hash = [];
  payload = op ∷ [];
}

abbrev short_log : Log
short_log = record {
  shard = 0;
  entries = plain_record 1 0 ∷ plain_record 2 1 ∷ plain_record 3 1 ∷ [];
  seed_hash = [];
}

pending_once_example :
    count_marker
      (marker 0 2)
      (write_rows (λ i. true) (λ i. true) (pending read_op show_unit 0 short_log 3 500) [])
    ≤ 1
pending_once_example =
    pending_once read_op show_unit 0 2 (λ i. true) (λ i. true) 0 3 500 short_log [] (λ i. refl)
      (omega arith)

abbrev release_row : ProjectedAudit
release_row = base 0 2 (codes "d") (codes "lease_release") (codes "holder=a") (codes "a") []

abbrev at_start : Projector
at_start = record { cursor_file = none; cursor = 0 }

sink_round_lost_example :
    ((sink_round (λ i. false) (λ i. false) true (release_row ∷ []) at_start []).0.cursor
      ≡ release_row.index)
    × ((sink_round (λ i. false) (λ i. false) true (release_row ∷ []) at_start []).1 ≡ [])
unfolding base
sink_round_lost_example =
    sink_round_lost (release_row ∷ []) release_row at_start [] (λ i. false) true refl (omega arith)
