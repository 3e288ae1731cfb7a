-- ===== src/Raft/Skew.antt =====
-- src/ha/raft.rs: measuring the clock offset of the peers.
use rdsctl.Base.{
  ltb, leb, ◌==◌, if◌then◌else◌, unwrap_or, length, drop, keep_if, u64_mod, add64, Text, ℕ, ◌+◌,
  ◌-◌, ◌/◌, ◌%◌, ◌^◌, min, ◌&&◌, ◌||◌, Option, none, some, List, [], ◌∷◌, ◌++◌, text_key,
}
use rdsctl.Base.Map
use rdsctl.Raft.{ClockSample, Node}

abbrev pub clock_sample_window : ℕ
clock_sample_window = 16

abbrev pub clock_sample_ttl_ms : ℕ
clock_sample_ttl_ms = 10000

abbrev pub clock_rtt_correction_cap_ms : ℕ
clock_rtt_correction_cap_ms = 2000

-- Arithmetic of `i64` on 64-bit patterns: `a as i64 - b as i64`, `x.saturating_add(c)` for a
-- non-negative `c`, and `x.unsigned_abs()`.
abbrev sub_i64 : ℕ → ℕ → ℕ
sub_i64 a b = (a % u64_mod + u64_mod - b % u64_mod) % u64_mod

abbrev saturating_add_i64 : ℕ → ℕ → ℕ
saturating_add_i64 x c = if ltb x (2 ^ 63) && leb (2 ^ 63) (x + c) then 2 ^ 63 - 1 else add64 x c

abbrev pub unsigned_abs : ℕ → ℕ
unsigned_abs x = if ltb x (2 ^ 63) then x else u64_mod - x

-- `push_sample` on the window of one peer: the oldest sample goes when the window is full.
unfoldable pub push_window : List ClockSample → ClockSample → List ClockSample
push_window w s = (if leb clock_sample_window (length w) then drop 1 w else w) ++ s ∷ []

module _ {Value : Type 0} where
  unfoldable pub push_sample : Text → ClockSample → Node Value → Node Value
  unfolding push_window
  push_sample peer s n = record n {
    peer_offset_samples =
        Map.insert peer (push_window (unwrap_or (Map.get peer n.peer_offset_samples) []) s)
          n.peer_offset_samples;
  }

  unfoldable pub observe_clock : Text → ℕ → ℕ → Node Value → Node Value
  observe_clock peer sender_ms local_ms n =
      let raw = sub_i64 sender_ms local_ms in
      if sender_ms == 0
      then n
      else push_sample peer (record { offset_ms = raw; raw_ms = raw; rtt_ms = 0; at_ms = local_ms })
          n

  unfoldable pub observe_clock_rtt : Text → ℕ → ℕ → ℕ → Node Value → Node Value
  observe_clock_rtt peer sender_ms local_ms echo_ms n =
      let raw = sub_i64 sender_ms local_ms in
      let rtt = local_ms - echo_ms in
      let corr = min (rtt / 2) clock_rtt_correction_cap_ms in
      if sender_ms == 0 || echo_ms == 0
      then observe_clock peer sender_ms local_ms n
      else push_sample peer
          (record {
            offset_ms = saturating_add_i64 raw corr;
            raw_ms = raw;
            rtt_ms = rtt;
            at_ms = local_ms;
          })
          n

  unfoldable pub observe_peer_skew : Text → ℕ → ℕ → Node Value → Node Value
  observe_peer_skew peer skew_ms local_ms n =
      let v = min skew_ms (2 ^ 63 - 1) in
      push_sample peer (record { offset_ms = v; raw_ms = v; rtt_ms = 0; at_ms = local_ms }) n

-- `min_by_key`: the first of the samples with the least key.
min_by_key : (ClockSample → ℕ) → ClockSample → List ClockSample → ClockSample
min_by_key key best [] = best
min_by_key key best (s ∷ ss) = min_by_key key (if ltb (key s) (key best) then s else best) ss

least : (ClockSample → ℕ) → List ClockSample → Option ℕ
unfolding min_by_key
least key [] = none
least key (s ∷ ss) = some (min_by_key key s ss).offset_ms

abbrev or_else : Option ℕ → Option ℕ → Option ℕ
or_else none o = o
or_else (some x) o = some x

-- The body of `peer_offset_filtered` on the window of the peer.
unfoldable pub filtered : List ClockSample → ℕ → Option ℕ
unfolding least
filtered w now =
    let fresh = keep_if (λ s. leb (now - s.at_ms) clock_sample_ttl_ms) w in
    or_else (least (λ s. s.rtt_ms) (keep_if (λ s. ltb 0 s.rtt_ms) fresh))
      (least (λ s. unsigned_abs s.offset_ms) fresh)

abbrev abs_or_zero : Option ℕ → ℕ
abs_or_zero none = 0
abs_or_zero (some x) = unsigned_abs x

module _ {Value : Type 0} where
  -- `peer_skew_estimate_ms(peer).unwrap_or(0)`.
  unfoldable pub peer_skew_or_zero : Node Value → Text → ℕ → ℕ
  unfolding filtered
  peer_skew_or_zero n peer now =
      abs_or_zero (filtered (unwrap_or (Map.get peer n.peer_offset_samples) []) now)
