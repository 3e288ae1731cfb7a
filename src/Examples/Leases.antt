-- ===== src/Examples/Leases.antt =====
-- Concrete leases of src/ha/state.rs.
use mathlib.Core.Bool.{false≢true}
use rdsctl.Base.{
  Text, codes, text_eq, text_eq_iff, is_blank, ℕ, ◌≤◌, ◌≡◌, refl, ap, ◌≢◌, ◌⊎◌, true, false, none,
  [], ◌∷◌, arith, text_key,
}
use rdsctl.Base.Map
use rdsctl.Base.Map.{Map}
use rdsctl.State.{
  Lease, fence_of, held_by, Op, lease_grant, lease_release, lease_purge, StateMachine,
}
use rdsctl.State.Leases.{granted}
use rdsctl.State.Apply.{apply}
use rdsctl.Fence.Wire.{IsWord}
use rdsctl.Fence.Guard.{written, seen, check_and_raise}
use rdsctl.Fence.Guard.Keeps.{run}
use rdsctl.State.Leases.Exclusion.{no_two_holders}
use rdsctl.State.Leases.Loss.{lease_loss}
use rdsctl.State.Leases.Fences.{LeasesPast, replaced_refused}

abbrev db : Text
db = codes "d"

abbrev ana : Text
ana = codes "a"

abbrev bob : Text
bob = codes "b"

abbrev old_lease : Lease
old_lease = granted db ana 10000 100 1 1

abbrev next_lease : Lease
next_lease = granted db bob 10000 12000 1 2

-- One lease, granted at position 1; the skew bound is 1000 ms.
abbrev held : StateMachine ℕ
held = record {
  shard = 1;
  config_epoch = 0;
  max_skew_ms = 1000;
  applied_index = 1;
  applied_term = 1;
  audit_seq = 0;
  kv = [];
  leases = (db, old_lease) ∷ [];
  steps = [];
  audit_tail = [];
  audit_tail_cap = 10;
}

abbrev grant_bob : Op ℕ
grant_bob = lease_grant db bob 10000 12000

abbrev release_ana : Op ℕ
release_ana = lease_release db ana

bob-ana : bob ≢ ana
unfolding text_eq
bob-ana e = false≢true ((text_eq_iff bob ana).1 e)

held-LeasesPast : LeasesPast held
unfolding Map.get
held-LeasesPast = record { past = λ i l e. ground arith }

no_two_holders_example : held_by old_lease ana 11500 ≡ false
unfolding apply text_eq Map.get is_blank Map.insert
no_two_holders_example =
    no_two_holders db 1 2 grant_bob held old_lease next_lease 11500 12000 10000 (tt, tt) refl refl
      bob-ana refl (omega arith) (omega arith)

lease_loss_example :
    (release_ana ≡ lease_release db ana)
    ⊎ ((cutoff : ℕ) × (release_ana ≡ lease_purge cutoff) × (10100 ≤ cutoff))
unfolding apply text_eq Map.get is_blank Map.insert Map.remove
lease_loss_example = lease_loss db 1 2 release_ana held old_lease (tt, tt) refl refl

fence_words : (l : Lease) → l.granted_term ≡ 1 → l.granted_index ≤ 2 → IsWord (fence_of l 1)
unfolding fence_of
fence_words l e h = record {
  shard_fits = omega arith;
  term_fits = omega arith;
  index_fits = omega arith;
}

next-old : next_lease ≢ old_lease
next-old e = bob-ana (ap (λ (l : Lease). l.holder) e)

replaced_refused_example :
    (check_and_raise
      (run
        (check_and_raise
          (record { fence_seen = []; idem = [] })
          db
          (fence_of next_lease 1)
          true
          written).0
        [])
      db
      (fence_of old_lease 1)
      true
      written).1
    ≢ none
unfolding apply text_eq check_and_raise seen Map.get is_blank Map.insert fence_of
replaced_refused_example =
    replaced_refused db db 1 2 grant_bob held old_lease next_lease
      (record { fence_seen = []; idem = [] }) true written written [] (tt, tt) held-LeasesPast
      (omega arith) (omega arith) refl refl next-old (fence_words old_lease refl (omega arith))
      (fence_words next_lease refl (omega arith)) tt refl
