-- ===== src/Raft/Timers/Bounds.antt =====
-- src/ha/raft.rs: the range of the election deadline.
use rdsctl.Base.{u64_mod, add64_lem, ℕ, ◌+◌, ◌-◌, ◌%◌, ◌≤◌, ◌<◌, max, arith}
use rdsctl.Raft.{Node}
use rdsctl.Raft.Timers.{next_rand, reset_election_deadline}

rest_below : (z span : ℕ) → 0 < span → z % span < span
rest_below z span h = grind arith

module _ {Value : Type 0} where
  -- The deadline lies within the range of the election timeout, counted from now, when the range is
  -- not empty and no sum passes the bound of its type.
  pub reset_election_deadline_lem :
      (now : ℕ) (n : Node Value)
      → n.cfg.election_timeout_low < n.cfg.election_timeout_high
      → now + n.cfg.election_timeout_high < u64_mod
      → (now + n.cfg.election_timeout_low ≤ (reset_election_deadline now n).election_deadline_ms)
        × ((reset_election_deadline now n).election_deadline_ms < now + n.cfg.election_timeout_high)
  unfolding reset_election_deadline
  reset_election_deadline_lem now n h b =
      let lo = n.cfg.election_timeout_low in
      let span = max (n.cfg.election_timeout_high - lo) 1 in
      let jitter = (next_rand n.rng).1 % span in
      let small : jitter < span = rest_below (next_rand n.rng).1 span (omega arith) in
      let first = add64_lem now lo (omega arith) in
      let second = add64_lem (now + lo) jitter (omega arith) in
      rw (first, second) (omega arith, omega arith)
