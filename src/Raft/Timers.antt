-- ===== src/Raft/Timers.antt =====
-- src/ha/raft.rs: the random source and the election deadline.
pub mod Bounds
use Prim.Native.Nat.{bit_xor}
use rdsctl.Base.{u64_mod, add64, ℕ, ◌-◌, ◌*◌, ◌/◌, ◌%◌, ◌^◌, max}
use rdsctl.Raft.{Node}

abbrev mix : ℕ → ℕ → ℕ → ℕ
mix z shift factor = bit_xor z (z / 2 ^ shift) * factor % u64_mod

-- `next_rand`: splitmix64. The new state, and the number.
unfoldable pub next_rand : ℕ → ℕ × ℕ
next_rand rng =
    let state = add64 rng 0x9E3779B97F4A7C15 in
    let z = mix (mix state 30 0xBF58476D1CE4E5B9) 27 0x94D049BB133111EB in
    (state, bit_xor z (z / 2 ^ 31))

module _ {Value : Type 0} where
  unfoldable pub reset_election_deadline : ℕ → Node Value → Node Value
  reset_election_deadline now n =
      let lo = n.cfg.election_timeout_low in
      let span = max (n.cfg.election_timeout_high - lo) 1 in
      record n {
        rng = (next_rand n.rng).0;
        election_deadline_ms = add64 (add64 now lo) ((next_rand n.rng).1 % span);
      }
