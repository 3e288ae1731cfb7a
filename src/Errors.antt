-- ===== src/Errors.antt =====
-- src/ha/mod.rs: `HaError` and `HaResult`.
use rdsctl.Base.{Text, ℕ, Option}

pub data HaError : Type 0 where
  io : HaError
  corrupt config transport : (message : Text) → HaError
  tail_truncated : (dropped_bytes : ℕ) → HaError
  not_leader : (leader : Option Text) → HaError
  quorum_unavailable : HaError

pub data Result {ℓ} (A : Type ℓ) : Type ℓ where
  ok : A → Result A
  err : HaError → Result A
