-- ===== src/Examples/Ledger.antt =====
-- Concrete keys, steps, logs and snapshots of src/ha/state.rs.
use rdsctl.Base.{
  Text, codes, is_blank, ℕ, ◌≡◌, refl, ◌≢◌, none, some, List, [], ◌∷◌, ◌++◌, arith, text_key,
}
use rdsctl.Base.Map
use rdsctl.State.{ok, step_already_done, put, delete, lease_grant, StateMachine, new}
use rdsctl.State.Kv.{apply_put}
use rdsctl.State.Kv.Versions.{stale_put_refused}
use rdsctl.State.Steps.{step_key, apply_begin, apply_done}
use rdsctl.State.Steps.Once.{effect_once}
use rdsctl.State.Steps.Keys.{step_key_collision}
use rdsctl.State.Apply.{apply}
use rdsctl.State.Apply.Invariant.{Inv, apply-Inv}
use rdsctl.State.Apply.Refusals.{refused_unchanged}
use rdsctl.State.Apply.Image.{to_image, from_image, restore_then_apply}
use rdsctl.State.Run.{Committed, apply_all}

abbrev k : Text
k = codes "k"

abbrev j : Text
j = codes "j"

abbrev empty : StateMachine ℕ
empty = new 1 1000

abbrev put_j : Committed ℕ
put_j = record { term = 1; index = 2; op = put j 7 none }

abbrev log_of_puts : List (Committed ℕ)
log_of_puts = record { term = 1; index = 1; op = put k 5 none } ∷ put_j ∷ []

effect_once_example :
    let s' = apply_all (put_j ∷ []) (apply_done k 5 1 empty).0 in
    (apply_begin k 9 s' ≡ (s', step_already_done (some 5)))
    × (apply_done k 6 9 s' ≡ (s', step_already_done (some 5)))
unfolding apply_done new Map.get
effect_once_example = effect_once k 5 6 1 9 empty (put_j ∷ []) refl

stale_put_refused_example :
    (apply_put k 6 (some 0) 9 (apply_all (put_j ∷ []) (apply_put k 5 none 1 empty).0)).1 ≢ ok
unfolding apply_put new is_blank Map.get
stale_put_refused_example =
    stale_put_refused k 5 6 none 0 1 9 empty (put_j ∷ []) refl (omega arith) (refl, tt)
      (omega arith)

restore_then_apply_example :
    apply_all (put_j ∷ []) (from_image (to_image (apply_all log_of_puts (new 1 1000))))
    ≡ apply_all (log_of_puts ++ put_j ∷ []) (new 1 1000)
restore_then_apply_example = restore_then_apply 1 1000 log_of_puts (put_j ∷ [])

empty-Inv : Inv empty
unfolding new Map.get
empty-Inv = record {
  kv_sorted = tt;
  leases_sorted = tt;
  steps_sorted = tt;
  tail_bounded = omega arith;
  leases_past = record { past = λ i l e. cc };
}

apply-Inv_example : Inv (apply 1 1 (lease_grant k j 10000 100) empty).0
unfolding new
apply-Inv_example =
    apply-Inv 1 1 (lease_grant k j 10000 100) empty (omega arith) (omega arith) empty-Inv

refused_unchanged_example :
    (apply 1 1 (delete k none) empty).0 ≡ record empty { applied_index = 1; applied_term = 1 }
unfolding apply new Map.get
refused_unchanged_example = refused_unchanged 1 1 (delete k none) empty (λ e. cc)

step_key_collision_example : step_key (k ++ b'|' ∷ []) j 3 k ≡ step_key k (b'|' ∷ j) 3 k
step_key_collision_example = step_key_collision k j k 3
