-- ===== src/State/Leases/Fences.antt =====
-- src/ha/state.rs, src/ha/fence.rs: the fence of a lease only grows, and the executor refuses the
-- fence of a lease that was replaced.
use rdsctl.Base.{
  Option-cases, All, Text, ℕ, ◌≤◌, ◌<◌, ◌≡◌, sym, ◌∙◌, ◌≢◌, ◌⊎◌, inl, inr, Bool, true, none, some,
  List, arith, text_key,
}
use rdsctl.Base.Map.{IsSorted, get-insert, get-remove}
use rdsctl.Fence.{fence_lt}
use rdsctl.Fence.Wire.{IsWord}
use rdsctl.Fence.Guard.{Outcome, Guard, check_and_raise}
use rdsctl.Fence.Guard.Keeps.{Command, run, Apart, stale_refused}
use rdsctl.State.{
  Lease, fence_of, Op, put, lease_grant, lease_renew, lease_release, lease_purge, StateMachine,
}
use rdsctl.State.Apply.{apply}
use rdsctl.State.Leases.{granted, renewed}
use rdsctl.State.Leases.Loss.{get-purge}
use rdsctl.State.Leases.Exclusion.{filter_by-some, lease_of}

module _ {Value : Type 0} where
  -- Every lease was written at a position that was applied.
  abbrev pub IsPast : Lease → StateMachine Value → Type 0
  IsPast l s = (l.granted_term ≤ s.applied_term) × (l.granted_index ≤ s.applied_index)

  pub record LeasesPast (s : StateMachine Value) : Type 0 where
    pub past : (i : Text) (l : Lease) → lease_of i s ≡ some l → IsPast l s

  -- Where the lease after an operation comes from: it was there, or the operation wrote it.
  lease_origin :
      (i : Text) (term index : ℕ) (op : Op Value) (s : StateMachine Value) (l : Lease)
      → IsSorted s.leases
      → lease_of i (apply term index op s).0 ≡ some l
      → (lease_of i s ≡ some l) ⊎ ((l.granted_term ≡ term) × (l.granted_index ≡ index))
  unfolding apply
  lease_origin i term index (lease_grant j h ttl at_ms) s l sorted after =
      ground (arith, get-insert j i (granted j h ttl at_ms term index) s.leases)
  lease_origin i term index (lease_renew j h at_ms) s l sorted after =
      elim (Option-cases (lease_of j s)) [
        | inl e ↦ ground arith
        | inr (cur, e) ↦ ground (arith, get-insert j i (renewed cur at_ms term index) s.leases)
      ]
  lease_origin i term index (lease_release j h) s l sorted after =
      ground (arith, get-remove j i s.leases)
  lease_origin i term index (lease_purge cutoff) s l sorted after =
      inl (filter_by-some cutoff i (lease_of i s) l (sym (get-purge cutoff i s sorted) ∙ after))
  lease_origin i term index (put k v e) s l sorted after = ground arith
  lease_origin i term index _ s l sorted after = ground arith

  -- The log's positions go up: every operation keeps the leases at applied positions.
  pub apply-LeasesPast :
      (term index : ℕ) (op : Op Value) (s : StateMachine Value)
      → IsSorted s.leases
      → s.applied_term ≤ term
      → s.applied_index ≤ index
      → LeasesPast s
      → LeasesPast (apply term index op s).0
  apply-LeasesPast term index op s sorted t n p = record {
    past = λ i l after.
        unfold apply in
        elim (lease_origin i term index op s l sorted after) [
          | inl before ↦ (omega (arith, p.past i l before), omega (arith, p.past i l before))
          | inr here ↦ omega arith
        ];
  }

  -- In a state with ordered leases written at applied positions, a lease that an operation at a
  -- later position changes, whether by a renewal or by a grant to the same or another holder, has
  -- a greater fence than before.
  pub fence_grows :
      (i : Text) (term index : ℕ) (op : Op Value) (s : StateMachine Value) (old new_lease : Lease)
      → IsSorted s.leases
      → LeasesPast s
      → s.applied_term ≤ term
      → s.applied_index < index
      → lease_of i s ≡ some old
      → lease_of i (apply term index op s).0 ≡ some new_lease
      → (new_lease ≡ old) ⊎ (fence_lt (fence_of old s.shard) (fence_of new_lease s.shard) ≡ true)
  fence_grows i term index op s old new_lease sorted p t n before after =
      elim (lease_origin i term index op s new_lease sorted after) [
        | inl kept ↦ inl (cc (kept, before))
        | inr here ↦ inr (unfold fence_lt fence_of in ground (arith, p.past i old before))
      ]

  -- The zombie holder, from the lease to the executor: in a state with ordered leases written at
  -- applied positions, let an operation at a later position replace or renew the lease `old`. Once
  -- the executor, which handles its commands one after the other, accepted a command with the fence of
  -- the new lease, it refuses, after any further commands, every command with the fence of `old`. The
  -- fields of all fences fit their types, no further command has the file of this key as its temporary
  -- file, and neither the late command nor any further one for this file fails to read it; writes may
  -- fail.
  pub replaced_refused :
      (i key : Text) (term index : ℕ) (op : Op Value) (s : StateMachine Value)
      (old new_lease : Lease) (g : Guard) (readable : Bool) (out late : Outcome) (cs : List Command)
      → IsSorted s.leases
      → LeasesPast s
      → s.applied_term ≤ term
      → s.applied_index < index
      → lease_of i s ≡ some old
      → lease_of i (apply term index op s).0 ≡ some new_lease
      → new_lease ≢ old
      → IsWord (fence_of old s.shard)
      → IsWord (fence_of new_lease s.shard)
      → All (Apart key) cs
      → (check_and_raise g key (fence_of new_lease s.shard) readable out).1 ≡ none
      → (check_and_raise
          (run (check_and_raise g key (fence_of new_lease s.shard) readable out).0 cs)
          key
          (fence_of old s.shard)
          true
          late).1
        ≢ none
  replaced_refused i key term index op s old new_lease g readable out late cs sorted p t n before
        after changed wo wn apart accepted =
      elim (fence_grows i term index op s old new_lease sorted p t n before after) [
        | inl same ↦ absurd (changed same)
        | inr lt ↦
            stale_refused g key (fence_of new_lease s.shard) (fence_of old s.shard) readable out
              late cs wn wo apart accepted lt
      ]
