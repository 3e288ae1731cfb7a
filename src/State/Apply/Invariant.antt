-- ===== src/State/Apply/Invariant.antt =====
-- src/ha/state.rs: what holds of every state that committed operations reach.
use rdsctl.Base.{
  ltb, Option-cases, length, length-drop, add32, Text, ℕ, ◌+◌, ◌-◌, ◌≤◌, ◌≡◌, refl, inl, inr, List,
  [], ◌∷◌, ◌++◌, arith, text_key,
}
use rdsctl.Base.Map
use rdsctl.Base.Map.{Map, IsSorted, insert-IsSorted, remove-IsSorted, retain-IsSorted}
use rdsctl.State.{
  AuditRow, Op, put, delete, lease_grant, lease_renew, lease_release, lease_purge, step_begin,
  step_done, audit_append, StateMachine, new,
}
use rdsctl.State.Apply.{trim_tail, apply}
use rdsctl.State.Run.{Committed, apply_all}
use rdsctl.State.Leases.{granted, renewed}
use rdsctl.State.Kv.{next_ver}
use rdsctl.State.Steps.{step_key, first_attempt, finished, finished_unseen, apply_begin, apply_done}
use rdsctl.State.Leases.Exclusion.{lease_of}
use rdsctl.State.Leases.Fences.{LeasesPast, apply-LeasesPast}

length-trim_tail : (limit : ℕ) (rows : List AuditRow) → length (trim_tail limit rows) ≤ limit
unfolding trim_tail
length-trim_tail limit rows = ground (arith, length-drop (length rows - limit) rows)

module _ {Value : Type 0} where
  -- The maps are ordered maps, the audit tail is within its bound, leases were written at applied
  -- positions.
  pub record Inv (s : StateMachine Value) : Type 0 where
    pub kv_sorted : IsSorted s.kv
    pub leases_sorted : IsSorted s.leases
    pub steps_sorted : IsSorted s.steps
    pub tail_bounded : length s.audit_tail ≤ s.audit_tail_cap
    pub leases_past : LeasesPast s

  kv-IsSorted :
      (term index : ℕ) (op : Op Value) (s : StateMachine Value)
      → IsSorted s.kv
      → IsSorted (apply term index op s).0.kv
  unfolding apply
  kv-IsSorted term index (put k v e) s h = ground (
    arith,
    insert-IsSorted k (record { value = v; ver = next_ver (Map.get k s.kv); updated_index = index })
        s.kv h,
  )
  kv-IsSorted term index (delete k e) s h = ground (arith, remove-IsSorted k s.kv h)
  kv-IsSorted term index _ s h = ground arith

  leases-IsSorted :
      (term index : ℕ) (op : Op Value) (s : StateMachine Value)
      → IsSorted s.leases
      → IsSorted (apply term index op s).0.leases
  unfolding apply
  leases-IsSorted term index (lease_grant i h ttl at_ms) s p =
      ground (arith, insert-IsSorted i (granted i h ttl at_ms term index) s.leases p)
  leases-IsSorted term index (lease_renew i h at_ms) s p = elim (Option-cases (lease_of i s)) [
    | inl e ↦ ground arith
    | inr (cur, e) ↦ ground (arith, insert-IsSorted i (renewed cur at_ms term index) s.leases p)
  ]
  leases-IsSorted term index (lease_release i h) s p = ground (arith, remove-IsSorted i s.leases p)
  leases-IsSorted term index (lease_purge cutoff) s p =
      retain-IsSorted (λ k l. ltb cutoff l.expire_at_ms) s.leases p
  leases-IsSorted term index _ s p = ground arith

  begin-IsSorted :
      (k : Text) (index : ℕ) (s : StateMachine Value)
      → IsSorted s.steps
      → IsSorted (apply_begin k index s).0.steps
  unfolding apply_begin
  begin-IsSorted k index s p = elim (Option-cases (Map.get k s.steps)) [
    | inl e ↦ ground (arith, insert-IsSorted k (first_attempt {Value = Value} index) s.steps p)
    | inr (cur, e) ↦
        ground (arith, insert-IsSorted k (record cur { attempts = add32 cur.attempts 1 }) s.steps p)
  ]

  done-IsSorted :
      (k : Text) (v : Value) (index : ℕ) (s : StateMachine Value)
      → IsSorted s.steps
      → IsSorted (apply_done k v index s).0.steps
  unfolding apply_done
  done-IsSorted k v index s p = elim (Option-cases (Map.get k s.steps)) [
    | inl e ↦ ground (arith, insert-IsSorted k (finished_unseen v index) s.steps p)
    | inr (cur, e) ↦ ground (arith, insert-IsSorted k (finished cur v index) s.steps p)
  ]

  steps-IsSorted :
      (term index : ℕ) (op : Op Value) (s : StateMachine Value)
      → IsSorted s.steps
      → IsSorted (apply term index op s).0.steps
  unfolding apply
  steps-IsSorted term index (step_begin t n i k) s p = begin-IsSorted (step_key t n i k) index s p
  steps-IsSorted term index (step_done t n i k v) s p = done-IsSorted (step_key t n i k) v index s p
  steps-IsSorted term index _ s p = ground arith

  tail-bounded :
      (term index : ℕ) (op : Op Value) (s : StateMachine Value)
      → length s.audit_tail ≤ s.audit_tail_cap
      → length (apply term index op s).0.audit_tail ≤ (apply term index op s).0.audit_tail_cap
  unfolding apply
  tail-bounded term index (audit_append a b c d e f) s p =
      length-trim_tail s.audit_tail_cap (s.audit_tail ++ _ ∷ [])
  tail-bounded term index _ s p = ground arith

  -- Every operation at a position not before the applied one keeps the invariant, also when it is
  -- refused.
  pub apply-Inv :
      (term index : ℕ) (op : Op Value) (s : StateMachine Value)
      → s.applied_term ≤ term
      → s.applied_index ≤ index
      → Inv s
      → Inv (apply term index op s).0
  apply-Inv term index op s t n v = record {
    kv_sorted = kv-IsSorted term index op s v.kv_sorted;
    leases_sorted = leases-IsSorted term index op s v.leases_sorted;
    steps_sorted = steps-IsSorted term index op s v.steps_sorted;
    tail_bounded = tail-bounded term index op s v.tail_bounded;
    leases_past = apply-LeasesPast term index op s v.leases_sorted t n v.leases_past;
  }

  new-Inv : (shard skew : ℕ) → Inv (new {Value = Value} shard skew)
  unfolding new Map.get
  new-Inv shard skew = record {
    kv_sorted = tt;
    leases_sorted = tt;
    steps_sorted = tt;
    tail_bounded = omega arith;
    leases_past = record { past = λ i l e. cc };
  }

  -- The positions of the log follow one another from the given one.
  abbrev pub Follow : ℕ → ℕ → List (Committed Value) → Type 0
  Follow term index [] = Unit
  Follow term index (c ∷ cs) = (term ≤ c.term) × (index + 1 ≡ c.index) × Follow c.term c.index cs

  apply_position :
      (term index : ℕ) (op : Op Value) (s : StateMachine Value)
      → ((apply term index op s).0.applied_term ≡ term)
        × ((apply term index op s).0.applied_index ≡ index)
  unfolding apply
  apply_position term index op s = (refl, refl)

  apply_all-Inv :
      (cs : List (Committed Value)) (s : StateMachine Value) (term index : ℕ)
      → s.applied_term ≡ term
      → s.applied_index ≡ index
      → Follow term index cs
      → Inv s
      → Inv (apply_all cs s) × ((apply_all cs s).applied_index ≡ index + length cs)
  unfolding apply_all
  apply_all-Inv [] s term index t n f v = (v, omega arith)
  apply_all-Inv (c ∷ cs) s term index t n f v =
      let ih =
        apply_all-Inv cs (apply c.term c.index c.op s).0 c.term c.index
          (apply_position c.term c.index c.op s).0 (apply_position c.term c.index c.op s).1 f.2
          (apply-Inv c.term c.index c.op s (omega arith) (omega arith) v) in
      (ih.0, omega (arith, ih.1))

  -- From the empty state machine, a log whose positions go up by one keeps the invariant and is
  -- applied to its last position.
  pub apply_all-new :
      (shard skew : ℕ) (cs : List (Committed Value))
      → Follow 0 0 cs
      → Inv (apply_all cs (new shard skew))
        × ((apply_all cs (new shard skew)).applied_index ≡ length cs)
  apply_all-new shard skew cs f =
      let r =
        apply_all-Inv cs (new shard skew) 0 0 (unfold new in refl) (unfold new in refl) f
          (new-Inv shard skew) in
      (r.0, omega (arith, r.1))
