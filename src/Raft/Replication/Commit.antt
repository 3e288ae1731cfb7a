-- ===== src/Raft/Replication/Commit.antt =====
-- src/ha/raft.rs: which entries `advance_commit` commits.
use rdsctl.Base.{
  ltb, leb, Bool-cases, add64, Text, ℕ, zero, suc, ◌+◌, ◌-◌, ◌≤◌, ◌<◌, ◌≡◌, refl, sym, ap, subst,
  ◌∙◌, ◌⊎◌, inl, inr, Bool, true, false, ◌&&◌, Option, none, some, List, arith,
}
use rdsctl.State.{Op}
use rdsctl.Base.Map.{Map}
use rdsctl.Log.{Record, Log, last_index, get, term_at}
use rdsctl.Raft.{Node}
use rdsctl.Raft.Config.{majority}
use rdsctl.Raft.Replication.{
  count_reached, is_term, scan_commit, apply_record, apply_loop, apply_committed, advance_commit,
}

-- The rule for committing an index: its entry is of this term, and a majority has it.
abbrev pub may_commit : Log → ℕ → ℕ → Map Text ℕ → ℕ → Bool
may_commit l term maj matches i = is_term term (term_at l i) && leb maj (count_reached i matches)

-- From an index on, for so many indices, none may be committed.
abbrev pub None : Log → ℕ → ℕ → Map Text ℕ → ℕ → ℕ → Type 0
None l term maj matches from upto =
    (i : ℕ) → from ≤ i → i < upto → may_commit l term maj matches i ≡ false

-- The commit index is the greatest index of a range that may be committed, and the old one if there
-- is none.
abbrev pub IsGreatest : Log → ℕ → ℕ → Map Text ℕ → ℕ → ℕ → ℕ → ℕ → Type 0
IsGreatest l term maj matches from upto old c =
    ((c ≡ old) × None l term maj matches from upto)
    ⊎ ((from ≤ c)
        × (c < upto)
        × (may_commit l term maj matches c ≡ true)
        × None l term maj matches (c + 1) upto)

None-widen :
    (l : Log) (term maj : ℕ) (matches : Map Text ℕ) (n upto : ℕ)
    → may_commit l term maj matches n ≡ false
    → None l term maj matches (n + 1) upto
    → None l term maj matches n upto
None-widen l term maj matches n upto f rest i h k = elim (Bool-cases (ltb n i)) [
  | inl e ↦ rest i (grind arith) k
  | inr e ↦
      let same : n ≡ i = grind arith in subst (λ x. may_commit l term maj matches x ≡ false) same f
]

IsGreatest-kept :
    (l : Log) (term maj : ℕ) (matches : Map Text ℕ) (n upto old c : ℕ)
    → may_commit l term maj matches n ≡ false
    → IsGreatest l term maj matches (n + 1) upto old c
    → IsGreatest l term maj matches n upto old c
IsGreatest-kept l term maj matches n upto old c f (inl (e, none_more)) =
    inl (e, None-widen l term maj matches n upto f none_more)
IsGreatest-kept l term maj matches n upto old c f (inr (h, k, e, none_more)) =
    inr (omega arith, k, e, none_more)

IsGreatest-moved :
    (l : Log) (term maj : ℕ) (matches : Map Text ℕ) (n upto old c : ℕ)
    → n < upto
    → may_commit l term maj matches n ≡ true
    → IsGreatest l term maj matches (n + 1) upto n c
    → IsGreatest l term maj matches n upto old c
IsGreatest-moved l term maj matches n upto old c bound t (inl (e, none_more)) = inr (
  omega arith,
  omega arith,
  subst (λ x. may_commit l term maj matches x ≡ true) (sym e) t,
  subst (λ x. None l term maj matches (x + 1) upto) (sym e) none_more,
)
IsGreatest-moved l term maj matches n upto old c bound t (inr (h, k, e, none_more)) =
    inr (omega arith, k, e, none_more)

scan_moved :
    (l : Log) (term maj : ℕ) (matches : Map Text ℕ) (k n commit : ℕ)
    → may_commit l term maj matches n ≡ true
    → scan_commit l term maj matches (suc k) n commit ≡ scan_commit l term maj matches k (n + 1) n
unfolding scan_commit
scan_moved l term maj matches k n commit t = rw t

scan_kept :
    (l : Log) (term maj : ℕ) (matches : Map Text ℕ) (k n commit : ℕ)
    → may_commit l term maj matches n ≡ false
    → scan_commit l term maj matches (suc k) n commit
      ≡ scan_commit l term maj matches k (n + 1) commit
unfolding scan_commit
scan_kept l term maj matches k n commit f = rw f

scan_commit-IsGreatest :
    (l : Log) (term maj : ℕ) (matches : Map Text ℕ) (k n upto commit : ℕ)
    → n + k ≡ upto
    → IsGreatest l term maj matches n upto commit (scan_commit l term maj matches k n commit)
unfolding scan_commit
scan_commit-IsGreatest l term maj matches zero n upto commit e =
    inl (refl, λ i h k. absurd (omega arith))
scan_commit-IsGreatest l term maj matches (suc k) n upto commit e =
    elim (Bool-cases (may_commit l term maj matches n)) [
      | inl t ↦
          subst (IsGreatest l term maj matches n upto commit)
            (sym (scan_moved l term maj matches k n commit t))
            (IsGreatest-moved l term maj matches n upto commit
              (scan_commit l term maj matches k (n + 1) n) (omega arith) t
              (scan_commit-IsGreatest l term maj matches k (n + 1) upto n (omega arith)))
      | inr f ↦
          subst (IsGreatest l term maj matches n upto commit)
            (sym (scan_kept l term maj matches k n commit f))
            (IsGreatest-kept l term maj matches n upto commit
              (scan_commit l term maj matches k (n + 1) commit) f
              (scan_commit-IsGreatest l term maj matches k (n + 1) upto commit (omega arith)))
    ]

module _ {Value : Type 0} (decode : List ℕ → Option (Op Value)) where
  pub apply_record-keeps :
      (r : Record) (idx : ℕ) (o : Option (Op Value)) (n : Node Value)
      → ((apply_record decode r idx o n).commit_index ≡ n.commit_index)
        × ((apply_record decode r idx o n).log ≡ n.log)
  unfolding apply_record
  apply_record-keeps r idx none n = (refl, refl)
  apply_record-keeps r idx (some op) n = (refl, refl)

  -- One round of the loop.
  unfoldable pub round : Node Value → Record → Node Value
  round n r = apply_record decode r (add64 n.sm.applied_index 1) (decode r.payload) n

  pub apply_loop-round :
      (k : ℕ) (n : Node Value)
      → ((get n.log (add64 n.sm.applied_index 1) ≡ none) × (apply_loop decode (suc k) n ≡ n))
        ⊎ ((r : Record) × (get n.log (add64 n.sm.applied_index 1) ≡ some r)
            × (apply_loop decode (suc k) n ≡ apply_loop decode k (round n r)))
  unfolding apply_loop round
  apply_loop-round k n = go (get n.log (add64 n.sm.applied_index 1)) refl
    where
      go :
          (o : Option Record)
          → get n.log (add64 n.sm.applied_index 1) ≡ o
          → ((get n.log (add64 n.sm.applied_index 1) ≡ none) × (apply_loop decode (suc k) n ≡ n))
            ⊎ ((r : Record) × (get n.log (add64 n.sm.applied_index 1) ≡ some r)
                × (apply_loop decode (suc k) n ≡ apply_loop decode k (round n r)))
      go none e = inl (e, rw (apply_loop, e) refl)
      go (some r) e = inr (r, e, rw (apply_loop, e) refl)

  apply_loop-commit_index :
      (k : ℕ) (n : Node Value) → (apply_loop decode k n).commit_index ≡ n.commit_index
  unfolding apply_loop round
  apply_loop-commit_index zero n = refl
  apply_loop-commit_index (suc k) n = elim (apply_loop-round k n) [
    | inl (g, e) ↦ ap (λ (x : Node Value). x.commit_index) e
    | inr (r, g, e) ↦
        ap (λ (x : Node Value). x.commit_index) e
        ∙ apply_loop-commit_index k (round n r)
        ∙ (apply_record-keeps r (add64 n.sm.applied_index 1) (decode r.payload) n).0
  ]

  apply_committed-commit_index :
      (n : Node Value) → (apply_committed decode n).commit_index ≡ n.commit_index
  unfolding apply_committed
  apply_committed-commit_index n = apply_loop-commit_index (n.commit_index - n.sm.applied_index) n

  -- After `advance_commit` the commit index is the greatest index behind the old one, up to the
  -- last index, whose entry is of the current term and has reached a majority, and the old one if
  -- there is no such index; the old one lies within the log.
  pub advance_commit-IsGreatest :
      (n : Node Value)
      → n.commit_index ≤ last_index n.log
      → IsGreatest n.log n.hard.current_term
          (majority n.cfg)
          n.match_index
          (n.commit_index + 1)
          (last_index n.log + 1)
          n.commit_index
          (advance_commit decode n).commit_index
  unfolding advance_commit
  advance_commit-IsGreatest n h =
      let c =
        scan_commit n.log n.hard.current_term (majority n.cfg) n.match_index
          (last_index n.log - n.commit_index) (n.commit_index + 1) n.commit_index in
      subst
        (IsGreatest n.log n.hard.current_term (majority n.cfg) n.match_index (n.commit_index + 1)
          (last_index n.log + 1) n.commit_index)
        (sym (apply_committed-commit_index (record n { commit_index = c })))
        (scan_commit-IsGreatest n.log n.hard.current_term (majority n.cfg) n.match_index
          (last_index n.log - n.commit_index) (n.commit_index + 1) (last_index n.log + 1)
          n.commit_index (omega arith))
