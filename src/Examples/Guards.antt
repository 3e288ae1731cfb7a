-- ===== src/Examples/Guards.antt =====
-- Concrete fences and commands of src/ha/mod.rs and src/ha/fence.rs, and hashed bytes.
use mathlib.Core.Bool.{false≢true}
use rdsctl.Base.{
  Text, codes, text_eq, text_eq_iff, ℕ, ◌^◌, ◌<◌, ◌≡◌, refl, ◌≢◌, inr, true, false, none, some, [],
  ◌∷◌, arith, text_key,
}
use rdsctl.Base.Map
use rdsctl.Base.Map.{Map}
use rdsctl.Fence.{Fence, fence_lt}
use rdsctl.Fence.Wire.{wire, parse, IsWord, parse-wire}
use rdsctl.Fence.Guard.{written, Guard, safe_key, tmp_name, held, seen, check_and_raise}
use rdsctl.Fence.Guard.Accepts.{check_and_raise_accepts}
use rdsctl.Fence.Guard.Keeps.{Command, run, Apart, stale_refused, unreadable_accepted}

abbrev key : Text
key = codes "k"

abbrev fence_at : ℕ → Fence
fence_at index = record { shard = 1; term = 1; index = index }

abbrev no_fences : Guard
no_fences = record { fence_seen = []; idem = [] }

fence_at-IsWord : (i : ℕ) → i < 2 ^ 64 → IsWord (fence_at i)
fence_at-IsWord i h = record { shard_fits = omega arith; term_fits = omega arith; index_fits = h }

parse-wire_example : parse (wire (fence_at 7)) ≡ some (fence_at 7)
parse-wire_example = parse-wire (fence_at 7) (fence_at-IsWord 7 (omega arith))

abbrev again : Command
again = record { key = key; fence = fence_at 7; readable = true; outcome = written }

key_Apart : Apart key again
unfolding tmp_name safe_key text_eq
key_Apart = (
  fence_at-IsWord 7 (omega arith),
  λ e. false≢true ((text_eq_iff (tmp_name (safe_key key)) (safe_key key)).1 e),
  inr refl,
)

stale_refused_example :
    (check_and_raise
      (run (check_and_raise no_fences key (fence_at 7) true written).0 (again ∷ []))
      key
      (fence_at 6)
      true
      written).1
    ≢ none
unfolding check_and_raise seen held Map.get fence_lt
stale_refused_example =
    stale_refused no_fences key (fence_at 7) (fence_at 6) true written written (again ∷ [])
      (fence_at-IsWord 7 (omega arith)) (fence_at-IsWord 6 (omega arith)) (key_Apart, tt) refl refl

abbrev seen_seven : Guard
seen_seven = (check_and_raise no_fences key (fence_at 7) true written).0

unreadable_accepted_example :
    ((check_and_raise seen_seven key (fence_at 6) true written).1 ≢ none)
    × ((check_and_raise seen_seven key (fence_at 6) false written).1 ≡ none)
    × (held (check_and_raise seen_seven key (fence_at 6) false written).0 key ≡ some (fence_at 6))
    × (check_and_raise
          (check_and_raise seen_seven key (fence_at 6) false written).0
          key
          (fence_at 6)
          true
          written
        ≡ ((check_and_raise seen_seven key (fence_at 6) false written).0, none))
unfolding check_and_raise seen held Map.get fence_lt
unreadable_accepted_example =
    unreadable_accepted seen_seven key (fence_at 7) (fence_at 6) written
      (fence_at-IsWord 6 (omega arith))
      (check_and_raise_accepts no_fences key (fence_at 7) true written
        (fence_at-IsWord 7 (omega arith)) refl).1
      refl
