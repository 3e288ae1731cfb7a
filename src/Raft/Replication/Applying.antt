-- ===== src/Raft/Replication/Applying.antt =====
-- src/ha/raft.rs: `apply_committed` applies the committed entries, each once and in order.
use rdsctl.Base.{
  u64_mod, add64, add64_lem, ℕ, zero, suc, ◌+◌, ◌-◌, ◌≤◌, ◌<◌, ◌≡◌, refl, sym, ap, subst, ◌∙◌, inl,
  inr, Option, none, some, List, [], ◌∷◌, arith,
}
use rdsctl.State.{Op, noop, StateMachine}
use rdsctl.State.Apply.{apply}
use rdsctl.State.Run.{Committed, apply_all}
use rdsctl.Log.{Record, Log, get}
use rdsctl.Raft.{Node}
use rdsctl.Raft.Replication.{apply_record, apply_loop, apply_committed}
use rdsctl.Raft.Replication.Commit.{apply_record-keeps, round, apply_loop-round}

-- An entry that does not parse counts as `noop`.
abbrev pub op_or_noop : {Value : Type 0} → Option (Op Value) → Op Value
op_or_noop none = noop
op_or_noop (some op) = op

module _ {Value : Type 0} (decode : List ℕ → Option (Op Value)) where
  -- The operations at so many indices of the log from an index on, to the first that it lacks.
  unfoldable pub committed : Log → ℕ → ℕ → List (Committed Value)
  committed l zero i = []
  committed l (suc k) i = elim (get l i) [
    | none ↦ []
    | some r ↦
        record { term = r.term; index = i; op = op_or_noop (decode r.payload) }
        ∷ committed l k (i + 1)
  ]

  -- The log has an entry at each of so many indices from an index on.
  abbrev pub HasAll : Log → ℕ → ℕ → Type 0
  HasAll l zero i = Unit
  HasAll l (suc k) i = ((r : Record) × (get l i ≡ some r)) × HasAll l k (i + 1)

  committed_more :
      (l : Log) (k i : ℕ) (r : Record)
      → get l i ≡ some r
      → committed l (suc k) i
        ≡ record { term = r.term; index = i; op = op_or_noop (decode r.payload) }
          ∷ committed l k (i + 1)
  unfolding committed
  committed_more l k i r e = rw (committed, e) refl

  apply_record-sm :
      (r : Record) (idx : ℕ) (o : Option (Op Value)) (n : Node Value)
      → (apply_record decode r idx o n).sm ≡ (apply r.term idx (op_or_noop o) n.sm).0
  unfolding apply_record
  apply_record-sm r idx none n = refl
  apply_record-sm r idx (some op) n = refl

  position :
      (term index : ℕ) (op : Op Value) (s : StateMachine Value)
      → (apply term index op s).0.applied_index ≡ index
  unfolding apply
  position term index op s = refl

  round_lem :
      (n : Node Value) (r : Record) (i : ℕ)
      → add64 n.sm.applied_index 1 ≡ i
      → ((round decode n r).sm ≡ (apply r.term i (op_or_noop (decode r.payload)) n.sm).0)
        × ((round decode n r).log ≡ n.log)
  unfolding round
  round_lem n r i e =
      subst
        (λ x.
          ((round decode n r).sm ≡ (apply r.term x (op_or_noop (decode r.payload)) n.sm).0)
          × ((round decode n r).log ≡ n.log))
        e
        (
          apply_record-sm r (add64 n.sm.applied_index 1) (decode r.payload) n,
          (apply_record-keeps decode r (add64 n.sm.applied_index 1) (decode r.payload) n).1,
        )

  round_position :
      (n : Node Value) (r : Record) (i : ℕ)
      → add64 n.sm.applied_index 1 ≡ i
      → (round decode n r).sm.applied_index ≡ i
  round_position n r i e =
      ap (λ (x : StateMachine Value). x.applied_index) (round_lem n r i e).0
      ∙ position r.term i (op_or_noop (decode r.payload)) n.sm

  loop_step :
      (k i : ℕ) (n : Node Value) (r : Record) (l : Log)
      → get l i ≡ some r
      → add64 n.sm.applied_index 1 ≡ i
      → apply_loop decode (suc k) n ≡ apply_loop decode k (round decode n r)
      → ((apply_loop decode k (round decode n r)).sm
          ≡ apply_all (committed l k (i + 1)) (round decode n r).sm)
        × ((apply_loop decode k (round decode n r)).sm.applied_index + 1 ≡ (i + 1) + k)
      → ((apply_loop decode (suc k) n).sm ≡ apply_all (committed l (suc k) i) n.sm)
        × ((apply_loop decode (suc k) n).sm.applied_index + 1 ≡ i + suc k)
  unfolding apply_all
  loop_step k i n r l g here s (ih, at) = (
    ap (λ (x : Node Value). x.sm) s
        ∙ ih
        ∙ ap (apply_all (committed l k (i + 1))) (round_lem n r i here).0
        ∙ ap (λ cs. apply_all cs n.sm) (sym (committed_more l k i r g)),
    ap (λ (x : Node Value). x.sm.applied_index + 1) s ∙ at ∙ omega arith,
  )

  zero_rounds :
      (i : ℕ) (n : Node Value) (l : Log)
      → n.sm.applied_index + 1 ≡ i
      → ((apply_loop decode 0 n).sm ≡ apply_all (committed l 0 i) n.sm)
        × ((apply_loop decode 0 n).sm.applied_index + 1 ≡ i + 0)
  unfolding apply_loop committed apply_all
  zero_rounds i n l p = (refl, omega arith)

  apply_loop_lem :
      (k i : ℕ) (n : Node Value) (l : Log)
      → n.log ≡ l
      → n.sm.applied_index + 1 ≡ i
      → i + k < u64_mod
      → HasAll l k i
      → ((apply_loop decode k n).sm ≡ apply_all (committed l k i) n.sm)
        × ((apply_loop decode k n).sm.applied_index + 1 ≡ i + k)
  apply_loop_lem zero i n l e p b h = zero_rounds i n l p
  apply_loop_lem (suc k) i n l e p b ((r, g), h) =
      let here : add64 n.sm.applied_index 1 ≡ i =
        add64_lem n.sm.applied_index 1 (omega arith) ∙ p in
      let found : get n.log (add64 n.sm.applied_index 1) ≡ some r =
        subst (λ (x : Log). get x (add64 n.sm.applied_index 1) ≡ some r) (sym e)
          (subst (λ j. get l j ≡ some r) (sym here) g) in
      elim (apply_loop-round decode k n) [
        | inl (q, s) ↦ absurd cc
        | inr (r', q, s) ↦
            let same : r' ≡ r = cc in
            loop_step k i n r l g here
              (subst (λ x. apply_loop decode (suc k) n ≡ apply_loop decode k (round decode n x))
                same s)
              (apply_loop_lem k (i + 1) (round decode n r) l ((round_lem n r i here).1 ∙ e)
                (ap (λ x. x + 1) (round_position n r i here)) (omega arith) h)
      ]

  -- If the applied index is not past the commit index, which does not wrap around, and the log
  -- holds the entries behind the one up to the other, then `apply_committed` applies just these,
  -- in the order of their indices, and the applied index becomes the commit index.
  pub apply_committed_lem :
      (n : Node Value)
      → n.sm.applied_index ≤ n.commit_index
      → n.commit_index + 1 < u64_mod
      → HasAll n.log (n.commit_index - n.sm.applied_index) (n.sm.applied_index + 1)
      → ((apply_committed decode n).sm
          ≡ apply_all
              (committed n.log (n.commit_index - n.sm.applied_index) (n.sm.applied_index + 1))
              n.sm)
        × ((apply_committed decode n).sm.applied_index ≡ n.commit_index)
  unfolding apply_committed
  apply_committed_lem n le b h =
      let k = n.commit_index - n.sm.applied_index in
      let run = apply_loop_lem k (n.sm.applied_index + 1) n n.log refl refl (omega arith) h in
      (run.0, omega (arith, run.1))
