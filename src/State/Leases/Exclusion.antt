-- ===== src/State/Leases/Exclusion.antt =====
-- src/ha/state.rs: one writer for each instance.
use rdsctl.Base.{
  ltb, Option-cases, u64_mod, saturating_add, saturating_mul, Text, text_eq_iff, is_blank, ℕ, ◌+◌,
  ◌≤◌, ◌<◌, ◌≡◌, sym, ap, ◌∙◌, ◌≢◌, ◌↔◌, ◌⊎◌, inl, inr, false, Option, none, some, arith, text_key,
}
use rdsctl.Base.Map
use rdsctl.Base.Map.{Map, IsSorted, get-insert, get-remove, filter_by, get-retain}
use rdsctl.State.{
  ok, Lease, held_by, Op, put, lease_grant, lease_renew, lease_release, lease_purge, StateMachine,
}
use rdsctl.State.Apply.{apply}
use rdsctl.State.Leases.{
  granted, renewed, apply_grant, apply_renew, apply_release, apply_purge, conflict,
}

-- The lease, if there is one, is not another holder's, or it is safe to replace at `at_ms`.
abbrev pub Replaceable : Option Lease → Text → ℕ → ℕ → Type 0
Replaceable none holder at_ms skew = Unit
Replaceable (some old) holder at_ms skew =
    (old.holder ≡ holder) ⊎ (saturating_add old.expire_at_ms skew ≤ at_ms)

conflict_iff :
    (o : Option Lease) (i holder : Text) (at_ms skew : ℕ)
    → (conflict o i holder at_ms skew ≡ none) ↔ Replaceable o holder at_ms skew
unfolding conflict
conflict_iff none i holder at_ms skew = ground arith
conflict_iff (some old) i holder at_ms skew = ground (arith, text_eq_iff old.holder holder)

pub filter_by-some :
    (cutoff : ℕ) (i : Text) (o : Option Lease) (l : Lease)
    → filter_by (λ k m. ltb cutoff m.expire_at_ms) i o ≡ some l
    → o ≡ some l
filter_by-some cutoff i none l h = cc
filter_by-some cutoff i (some m) l h = ground arith

module _ {Value : Type 0} where
  abbrev pub lease_of : Text → StateMachine Value → Option Lease
  lease_of i s = Map.get i s.leases

  -- A grant is applied exactly when the names are not blank, the duration is positive and at least ten
  -- times the skew bound, and the current lease may be replaced.
  pub grant_iff :
      (i holder : Text) (ttl at_ms term index : ℕ) (s : StateMachine Value)
      → ((apply_grant i holder ttl at_ms term index s).1 ≡ ok) ↔ (
          (is_blank i ≡ false)
          × (is_blank holder ≡ false)
          × (0 < ttl)
          × (saturating_mul s.max_skew_ms 10 ≤ ttl)
          × Replaceable (lease_of i s) holder at_ms s.max_skew_ms)
  unfolding apply_grant
  grant_iff i holder ttl at_ms term index s =
      ground (arith, conflict_iff (lease_of i s) i holder at_ms s.max_skew_ms)

  grant_taken :
      (i j h : Text) (ttl at_ms term index : ℕ) (s : StateMachine Value) (old new_lease : Lease)
      → lease_of i s ≡ some old
      → lease_of i (apply_grant j h ttl at_ms term index s).0 ≡ some new_lease
      → new_lease.holder ≢ old.holder
      → (j ≡ i) × (h ≡ new_lease.holder) × (saturating_add old.expire_at_ms s.max_skew_ms ≤ at_ms)
  unfolding apply_grant
  grant_taken i j h ttl at_ms term index s old new_lease before after changed = ground (
    arith,
    text_eq_iff j i,
    get-insert j i (granted j h ttl at_ms term index) s.leases,
    conflict_iff (lease_of j s) j h at_ms s.max_skew_ms,
  )

  renew_keeps :
      (i j h : Text) (at_ms term index : ℕ) (s : StateMachine Value) (old new_lease : Lease)
      → lease_of i s ≡ some old
      → lease_of i (apply_renew j h at_ms term index s).0 ≡ some new_lease
      → new_lease.holder ≡ old.holder
  unfolding apply_renew
  renew_keeps i j h at_ms term index s old new_lease before after =
      elim (Option-cases (lease_of j s)) [
        | inl e ↦ ground arith
        | inr (cur, e) ↦
            ground (arith, text_eq_iff j i, get-insert j i (renewed cur at_ms term index) s.leases)
      ]

  release_keeps :
      (i j h : Text) (s : StateMachine Value) (old new_lease : Lease)
      → lease_of i s ≡ some old
      → lease_of i (apply_release j h s).0 ≡ some new_lease
      → new_lease ≡ old
  unfolding apply_release
  release_keeps i j h s old new_lease before after =
      ground (arith, text_eq_iff j i, get-remove j i s.leases)

  purge_keeps :
      (i : Text) (cutoff : ℕ) (s : StateMachine Value) (old new_lease : Lease)
      → IsSorted s.leases
      → lease_of i s ≡ some old
      → lease_of i (apply_purge cutoff s).0 ≡ some new_lease
      → new_lease ≡ old
  unfolding apply_purge
  purge_keeps i cutoff s old new_lease sorted before after = cc (
    before,
    filter_by-some cutoff i (lease_of i s) new_lease
        (sym (get-retain (λ k m. ltb cutoff m.expire_at_ms) i s.leases sorted) ∙ after),
  )

  -- While the leases are ordered, a lease passes to another holder only by a grant, and only when
  -- the moment that the grant carries has reached the expiry of the old lease plus the skew bound.
  pub holder_change :
      (i : Text) (term index : ℕ) (op : Op Value) (s : StateMachine Value) (old new_lease : Lease)
      → IsSorted s.leases
      → lease_of i s ≡ some old
      → lease_of i (apply term index op s).0 ≡ some new_lease
      → new_lease.holder ≢ old.holder
      → (ttl : ℕ) × (at_ms : ℕ) × (op ≡ lease_grant i new_lease.holder ttl at_ms)
        × (saturating_add old.expire_at_ms s.max_skew_ms ≤ at_ms)
  holder_change i term index (lease_grant j h ttl at_ms) s old new_lease sorted before after other =
      let facts =
        grant_taken i j h ttl at_ms term index s old new_lease before (unfold apply in after)
          other in
      (ttl, at_ms, cc (facts.0, facts.1), facts.2)
  holder_change i term index (lease_renew j h at_ms) s old new_lease sorted before after other =
      absurd
        (other (renew_keeps i j h at_ms term index s old new_lease before (unfold apply in after)))
  holder_change i term index (lease_release j h) s old new_lease sorted before after other =
      absurd (
        other (
          ap (λ (l : Lease). l.holder)
            (release_keeps i j h s old new_lease before (unfold apply in after))))
  holder_change i term index (lease_purge cutoff) s old new_lease sorted before after other =
      absurd (
        other (
          ap (λ (l : Lease). l.holder)
            (purge_keeps i cutoff s old new_lease sorted before (unfold apply in after))))
  holder_change i term index (put k v e) s old new_lease sorted before after other =
      absurd (other (unfold apply in ground arith))
  holder_change i term index _ s old new_lease sorted before after other =
      absurd (other (unfold apply in ground arith))

  -- When a grant passes a lease to another holder, the old holder does not count as holding by any
  -- clock that is behind the grant's moment by no more than the skew bound, provided that the
  -- leases are ordered and the old expiry plus the bound does not wrap around.
  pub no_two_holders :
      (i : Text) (term index : ℕ) (op : Op Value) (s : StateMachine Value) (old new_lease : Lease)
      (now at_ms ttl : ℕ)
      → IsSorted s.leases
      → lease_of i s ≡ some old
      → lease_of i (apply term index op s).0 ≡ some new_lease
      → new_lease.holder ≢ old.holder
      → op ≡ lease_grant i new_lease.holder ttl at_ms
      → at_ms ≤ now + s.max_skew_ms
      → old.expire_at_ms + s.max_skew_ms < u64_mod
      → held_by old old.holder now ≡ false
  unfolding held_by
  no_two_holders i term index op s old new_lease now at_ms ttl sorted before after other e near
        bound =
      let (ttl', at', e', safe) =
        holder_change i term index op s old new_lease sorted before after other in
      ground (arith, same_moment ttl ttl' at_ms at' (sym e ∙ e'))
    where
      same_moment :
          (ttl ttl' at_ms at' : ℕ)
          → ◌≡◌ {A = Op Value}
              (lease_grant i new_lease.holder ttl at_ms)
              (lease_grant i new_lease.holder ttl' at')
          → at_ms ≡ at'
      same_moment ttl ttl' at_ms at' p = cc
