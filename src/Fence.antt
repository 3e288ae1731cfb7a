-- ===== src/Fence.antt =====
-- src/ha/mod.rs: `Fence`, the token (shard, term, index) of a lease, and its order.
pub mod Wire
pub mod Guard
use rdsctl.Base.{ltb, ◌==◌, if◌then◌else◌, ℕ, ◌≡◌, ◌↔◌, Bool, true, false, ◌&&◌, arith}

pub record Fence : Type 0 where
  pub shard : ℕ
  pub term : ℕ
  pub index : ℕ

-- The derived `PartialEq` and `Ord`: lexicographic over the fields.
unfoldable pub fence_eq : Fence → Fence → Bool
fence_eq a b = a.shard == b.shard && a.term == b.term && a.index == b.index

unfoldable pub fence_lt : Fence → Fence → Bool
fence_lt a b =
    if ltb a.shard b.shard
    then true
    else if a.shard == b.shard
    then (if ltb a.term b.term
        then true
        else if a.term == b.term
        then ltb a.index b.index
        else false)
    else false

-- The derived order is a strict total order.
pub fence_lt_irrefl : (a : Fence) → fence_lt a a ≡ false
unfolding fence_lt
fence_lt_irrefl a = ground arith

-- `a ≤ b`, `b ≤ c` and not `c < a`.
pub fence_ge_trans :
    (a b c : Fence) → fence_lt b a ≡ false → fence_lt c b ≡ false → fence_lt c a ≡ false
unfolding fence_lt
fence_ge_trans a b c h k = ground arith

pub fence_lt_ge_trans :
    (a b c : Fence) → fence_lt a b ≡ true → fence_lt c b ≡ false → fence_lt a c ≡ true
unfolding fence_lt
fence_lt_ge_trans a b c h k = ground arith

pub fence_eq_iff : (a b : Fence) → (fence_eq a b ≡ true) ↔ (a ≡ b)
unfolding fence_eq
fence_eq_iff a b = ground arith
