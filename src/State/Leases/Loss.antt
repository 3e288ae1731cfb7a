-- ===== src/State/Leases/Loss.antt =====
-- src/ha/state.rs: how a lease ends, and why purging expired leases is safe.
use rdsctl.Base.{
  ltb, Option-cases, Text, text_eq_iff, ℕ, ◌+◌, ◌≤◌, ◌≡◌, refl, sym, ◌∙◌, ◌⊎◌, inl, inr, Option,
  none, some, arith, text_key,
}
use rdsctl.Base.Map.{IsSorted, get-insert, get-remove, filter_by, get-retain}
use rdsctl.State.{
  Reject, Lease, Op, put, lease_grant, lease_renew, lease_release, lease_purge, StateMachine,
}
use rdsctl.State.Apply.{apply}
use rdsctl.State.Leases.{
  granted, renewed, grant_check, apply_grant, apply_release, apply_purge, conflict, grant_checked,
}
use rdsctl.State.Leases.Exclusion.{lease_of}

purged_away :
    (cutoff : ℕ) (i : Text) (o : Option Lease) (l : Lease)
    → o ≡ some l
    → filter_by (λ k m. ltb cutoff m.expire_at_ms) i o ≡ none
    → l.expire_at_ms ≤ cutoff
purged_away cutoff i none l e h = cc
purged_away cutoff i (some m) l e h = ground arith

Replaceable-purge :
    (cutoff : ℕ) (i holder : Text) (at_ms skew : ℕ) (o : Option Lease)
    → cutoff + skew ≤ at_ms
    → conflict (filter_by (λ k m. ltb cutoff m.expire_at_ms) i o) i holder at_ms skew
      ≡ conflict o i holder at_ms skew
Replaceable-purge cutoff i holder at_ms skew none h = refl
Replaceable-purge cutoff i holder at_ms skew (some m) h = unfold conflict in ground arith

module _ {Value : Type 0} where
  release_loses :
      (i j h : Text) (s : StateMachine Value) (old : Lease)
      → lease_of i s ≡ some old
      → lease_of i (apply_release j h s).0 ≡ none
      → (j ≡ i) × (h ≡ old.holder)
  unfolding apply_release
  release_loses i j h s old before after = elim (Option-cases (lease_of j s)) [
    | inl e ↦ ground arith
    | inr (cur, e) ↦
        ground (arith, text_eq_iff j i, text_eq_iff cur.holder h, get-remove j i s.leases)
  ]

  -- While the leases are ordered, a lease is lost only when its holder releases it, or by a purge
  -- whose cutoff it does not outlive.
  pub lease_loss :
      (i : Text) (term index : ℕ) (op : Op Value) (s : StateMachine Value) (old : Lease)
      → IsSorted s.leases
      → lease_of i s ≡ some old
      → lease_of i (apply term index op s).0 ≡ none
      → (op ≡ lease_release i old.holder)
        ⊎ ((cutoff : ℕ) × (op ≡ lease_purge cutoff) × (old.expire_at_ms ≤ cutoff))
  lease_loss i term index (lease_grant j h ttl at_ms) s old sorted before after =
      absurd
        (unfold apply in ground (arith, get-insert j i (granted j h ttl at_ms term index) s.leases))
  lease_loss i term index (lease_renew j h at_ms) s old sorted before after =
      elim (Option-cases (lease_of j s)) [
        | inl e ↦ absurd (unfold apply in ground arith)
        | inr (cur, e) ↦
            absurd (
              unfold apply in
              ground (arith, get-insert j i (renewed cur at_ms term index) s.leases))
      ]
  lease_loss i term index (lease_release j h) s old sorted before after =
      let facts = release_loses i j h s old before (unfold apply in after) in
      inl (cc (facts.0, facts.1))
  lease_loss i term index (lease_purge cutoff) s old sorted before after = inr (
    cutoff,
    refl,
    purged_away cutoff i (lease_of i s) old before (
        sym (get-retain (λ k m. ltb cutoff m.expire_at_ms) i s.leases sorted)
        ∙ (unfold apply in after)),
  )
  lease_loss i term index (put k v e) s old sorted before after =
      absurd (unfold apply in ground arith)
  lease_loss i term index _ s old sorted before after = absurd (unfold apply in ground arith)

  grant_check-purge :
      (cutoff : ℕ) (i holder : Text) (ttl at_ms : ℕ) (s : StateMachine Value)
      → IsSorted s.leases
      → cutoff + s.max_skew_ms ≤ at_ms
      → grant_check i holder ttl at_ms (apply_purge cutoff s).0 ≡ grant_check i holder ttl at_ms s
  unfolding grant_check apply_purge
  grant_check-purge cutoff i holder ttl at_ms s sorted h = rw (
    get-retain (λ k m. ltb cutoff m.expire_at_ms) i s.leases sorted,
    Replaceable-purge cutoff i holder at_ms s.max_skew_ms (lease_of i s) h,
  )

  -- Purging does not weaken the exclusion: while the leases are ordered, a grant whose moment is
  -- at or after the cutoff plus the skew bound has after the purge the result, applied or refused,
  -- that it has without it.
  pub grant-purge :
      (cutoff : ℕ) (i holder : Text) (ttl at_ms term index : ℕ) (s : StateMachine Value)
      → IsSorted s.leases
      → cutoff + s.max_skew_ms ≤ at_ms
      → (apply_grant i holder ttl at_ms term index (apply_purge cutoff s).0).1
        ≡ (apply_grant i holder ttl at_ms term index s).1
  unfolding apply_grant
  grant-purge cutoff i holder ttl at_ms term index s sorted h =
      rw (grant_check-purge cutoff i holder ttl at_ms s sorted h)
        (same_result (grant_check i holder ttl at_ms s))
    where
      same_result :
          (r : Option Reject)
          → (grant_checked r i (granted i holder ttl at_ms term index) (apply_purge cutoff s).0).1
            ≡ (grant_checked r i (granted i holder ttl at_ms term index) s).1
      same_result none = refl
      same_result (some x) = refl

  -- After a purge an instance has its old lease if that outlives the cutoff, and none otherwise.
  pub get-purge :
      (cutoff : ℕ) (i : Text) (s : StateMachine Value)
      → IsSorted s.leases
      → lease_of i (apply_purge cutoff s).0
        ≡ filter_by (λ k m. ltb cutoff m.expire_at_ms) i (lease_of i s)
  unfolding apply_purge
  get-purge cutoff i s sorted = get-retain _ i s.leases sorted
