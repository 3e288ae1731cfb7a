-- ===== src/Tasks/Cycle/Graph.antt =====
-- src/dag.rs: `find_cycle` as a test on the graph of the dependencies.
use mathlib.Core.Bool.{false≢true}
use mathlib.Core.WellFounded.{Acc}
use rdsctl.Base.{
  unwrap_or, length, All, Text, ◌+◌, ◌≡◌, refl, sym, ap, subst, ◌∙◌, ◌↔◌, ◌⊎◌, inl, inr, Bool, true,
  false, Option, none, some, List, [], ◌∷◌,
}
use rdsctl.Tasks.{TaskNode, contains}
use rdsctl.Tasks.Cycle.{Marks, cycle_dfs, search_next, search_from, no_marks, find_cycle}
use rdsctl.Tasks.Cycle.Laws.{
  free_in-bound, Needs, Reaches, direct, further, extend, IsGrounded, LeadsToCycle, has, Settled,
  Sound, dfs_ok,
}

module _ (nodes : List TaskNode) where
  first_step :
      (y z : Text) → Reaches nodes y z → (d : Text) × Needs nodes d y × (d ≡ z ⊎ Reaches nodes d z)
  first_step _ _ (direct y d n) = (d, n, inl refl)
  first_step _ _ (further y d z n q) = (d, n, inr q)

  -- A cycle through a task is one through the first task that it needs.
  shifted :
      (y : Text)
      → (d : Text) × Needs nodes d y × (d ≡ y ⊎ Reaches nodes d y)
      → (d : Text) × Needs nodes d y × Reaches nodes d d
  shifted y (d, n, inl e) = (
    d,
    n,
    subst (λ x. Reaches nodes d x) (sym e)
        (direct d y (subst (λ x. Needs nodes y x) (sym e) (subst (λ x. Needs nodes x y) e n))),
  )
  shifted y (d, n, inr q) = (d, n, extend nodes d y d q n)

  no_loop : (y : Text) → IsGrounded nodes y → Reaches nodes y y → ⊥
  no_loop y (Acc.intro _ below) r =
      let next = shifted y (first_step y y r) in no_loop next.0 (below next.0 next.1) next.2

  IsGrounded-along : (x y : Text) → IsGrounded nodes x → Reaches nodes x y → IsGrounded nodes y
  IsGrounded-along _ _ (Acc.intro _ below) (direct x d n) = below d n
  IsGrounded-along _ _ (Acc.intro _ below) (further x d e n q) = IsGrounded-along d e (below d n) q

  not_both : (x : Text) → IsGrounded nodes x → LeadsToCycle nodes x → ⊥
  not_both x a (y, inl e, r) = no_loop y (subst (IsGrounded nodes) e a) r
  not_both x a (y, inr p, r) = no_loop y (IsGrounded-along x y a p) r

  abbrev AllGrounded : List TaskNode → Type 0
  AllGrounded = All (λ n. IsGrounded nodes n.id)

  abbrev Found : List TaskNode → Option (Option Text) → Type 0
  Found ns none = ⊥
  Found ns (some none) = AllGrounded ns
  Found ns (some (some x)) = LeadsToCycle nodes x × (AllGrounded ns → IsGrounded nodes x)

  keep_found :
      (n : TaskNode) (ns : List TaskNode) (r : Option (Option Text))
      → IsGrounded nodes n.id
      → Found ns r
      → Found (n ∷ ns) r
  keep_found n ns none a s = s
  keep_found n ns (some none) a s = (a, s)
  keep_found n ns (some (some x)) a (c, g) = (c, λ all. g all.1)

  found_step :
      (n : TaskNode) (ns : List TaskNode) (m : Marks) (r : Option (Bool × Marks))
      (next : Marks → Option (Option Text))
      → Sound nodes m n.id r
      → ((m' : Marks) → Settled nodes m' → has nodes m' ≡ has nodes m → Found ns (next m'))
      → Found (n ∷ ns) (search_next n.id r next)
  found_step n ns m none next s go = s
  found_step n ns m (some (true, m')) next s go = (s, λ all. all.0)
  found_step n ns m (some (false, m')) next (s, e, a) go = keep_found n ns (next m') a (go m' s e)

  search_ok :
      (ns : List TaskNode) (m : Marks)
      → Settled nodes m
      → ((v : Text) → has nodes m v ≡ false)
      → Found ns (search_from nodes (length nodes + 1) ns m)
  unfolding search_from
  search_ok [] m s idle = tt
  search_ok (n ∷ ns) m s idle =
      found_step n ns m (cycle_dfs nodes (length nodes + 1) n.id m)
        (search_from nodes (length nodes + 1) ns)
        (dfs_ok nodes (length nodes + 1) n.id m s (λ v h. absurd (false≢true (sym (idle v) ∙ h)))
          (free_in-bound (has nodes m) nodes))
        (λ m' s' e. search_ok ns m' s' (λ v. ap (λ g. g v) e ∙ idle v))

  start : Found nodes (search_from nodes (length nodes + 1) nodes no_marks)
  unfolding contains
  start = search_ok nodes no_marks (λ v e. absurd (false≢true e)) (λ v. refl)

  in_time : (r : Option (Option Text)) → Found nodes r → r ≡ some (unwrap_or r none)
  in_time none s = absurd s
  in_time (some a) s = refl

  decided :
      (r : Option (Option Text)) → Found nodes r → (unwrap_or r none ≡ none) ↔ AllGrounded nodes
  decided none s = absurd s
  decided (some none) s = (λ _. s, λ _. refl)
  decided (some (some x)) (c, g) = (λ e. absurd (cc), λ all. absurd (not_both x (g all) c))

  found :
      (x : Text) (r : Option (Option Text))
      → Found nodes r
      → unwrap_or r none ≡ some x
      → LeadsToCycle nodes x
  found x none s e = absurd s
  found x (some none) s e = absurd cc
  found x (some (some y)) s e = subst (LeadsToCycle nodes) (same e) s.0
    where
      same : {a b : Text} → some a ≡ some b → a ≡ b
      same h = cc

  -- The search ends with the depth that it is given, and reports no cycle exactly when the chains of
  -- dependencies of every task end.
  pub find_cycle_iff :
      (search_from nodes (length nodes + 1) nodes no_marks ≡ some (find_cycle nodes))
      × ((find_cycle nodes ≡ none) ↔ All (λ n. IsGrounded nodes n.id) nodes)
  unfolding find_cycle
  find_cycle_iff = (
    in_time (search_from nodes (length nodes + 1) nodes no_marks) start,
    decided (search_from nodes (length nodes + 1) nodes no_marks) start,
  )

  -- A task that is reported waits for itself, directly or through others, or waits for such a task.
  pub find_cycle-LeadsToCycle : (x : Text) → find_cycle nodes ≡ some x → LeadsToCycle nodes x
  unfolding find_cycle
  find_cycle-LeadsToCycle x e =
      found x (search_from nodes (length nodes + 1) nodes no_marks) start e
