-- ===== src/Tasks/Execute/Progress.antt =====
-- src/dag.rs: no node is forgotten: one that waits for no other is ready, and one that does not wait
-- was started.
use mathlib.Core.Bool.{false≢true}
use rdsctl.Base.{
  ◌==◌, if◌then◌else◌, Bool-cases, is_some, Text, text_eq, text_eq_iff, ℕ, ◌-◌, ◌≡◌, refl, sym, ap,
  subst, ◌∙◌, ◌⊎◌, inl, inr, Bool, true, false, ◌&&◌, Option, none, some, List, [], ◌∷◌, ◌++◌,
  arith, text_key,
}
use rdsctl.Base.Map
use rdsctl.Base.Map.{Map}
use rdsctl.Tasks.{TaskNode, contains}
use rdsctl.Tasks.Cycle.{find_node}
use rdsctl.Tasks.Cycle.Laws.{contains-remove}
use rdsctl.Tasks.Plan.{Exec, plan_of, push_ready, count_down, release}
use rdsctl.Tasks.Execute.{launch}
use rdsctl.Tasks.Execute.Edges.{HasDistinctIds, found_or}
use rdsctl.Tasks.Execute.Release.{
  less, find_node_id, deps_left-count_down, rest_of-count_down, node_by_id_lem,
}
use rdsctl.Tasks.Execute.Order.Keeps.{launched, some_inj}

abbrev pub listed : Text → List TaskNode → Bool
listed x ns = is_some (find_node x ns)

listed_snoc :
    (x : Text) (n : TaskNode) (ns : List TaskNode)
    → listed x ns ≡ true
    → listed x (ns ++ n ∷ []) ≡ true
unfolding find_node
listed_snoc x n [] h = absurd cc
listed_snoc x n (m ∷ ns) h = ground (arith, listed_snoc x n ns)

listed_last :
    (x : Text) (n : TaskNode) (ns : List TaskNode) → n.id ≡ x → listed x (ns ++ n ∷ []) ≡ true
unfolding find_node
listed_last x n [] e = rw ((text_eq_iff n.id x).1 e) refl
listed_last x n (m ∷ ns) e = ground (arith, listed_last x n ns e)

listed_push :
    (x : Text) (o : Option TaskNode) (b : Bool) (r : Exec)
    → listed x r.ready ≡ true
    → listed x (if b then push_ready o r else r).ready ≡ true
listed_push x none true r h = h
listed_push x none false r h = h
listed_push x (some n) false r h = h
listed_push x (some n) true r h = listed_snoc x n r.ready h

pub waiting-launch :
    (now : Text → ℕ) (ns : List TaskNode) (x : Text) (r : Exec)
    → contains x (launch now ns r).waiting ≡ (if listed x ns then false else contains x r.waiting)
unfolding launch find_node
waiting-launch now [] x r = refl
waiting-launch now (n ∷ ns) x r =
    waiting-launch now ns x (launched (now n.id) n r)
    ∙ ground (arith, contains-remove n.id x r.waiting)

module _ (nodes : List TaskNode) (u : HasDistinctIds nodes) where
  -- A node that waits for no other is ready.
  abbrev pub NoneForgotten : Exec → Type 0
  NoneForgotten r =
      (x : Text)
      → listed x nodes ≡ true
      → contains x r.waiting ≡ true
      → Map.get x r.deps_left ≡ some 0
      → listed x r.ready ≡ true

  pub some-listed :
      (x : Text) → listed x nodes ≡ true → (n : TaskNode) × (find_node x nodes ≡ some n)
  some-listed x e = by_found (find_node x nodes) refl
    where
      by_found :
          (o : Option TaskNode)
          → find_node x nodes ≡ o
          → (n : TaskNode) × (find_node x nodes ≡ some n)
      by_found none f = absurd (false≢true (sym (ap is_some f) ∙ e))
      by_found (some n) f = (n, f)

  pushed_listed :
      (d : Text) (c : ℕ) (r : Exec)
      → listed d nodes ≡ true
      → contains d r.waiting ≡ true
      → c - 1 ≡ 0
      → listed d (count_down (plan_of nodes) d (some c) r).ready ≡ true
  pushed_listed d c r l w z =
      let n = some-listed d l in
      let r' = record r { deps_left = Map.insert d (c - 1) r.deps_left } in
      subst
        (λ o.
          listed d (if (c - 1 == 0) && contains d r.waiting then push_ready o r' else r').ready
          ≡ true)
        (sym (node_by_id_lem nodes d u ∙ ap (λ o. found_or (λ m. m) o none) n.1))
        (subst (λ b. listed d (if b then push_ready (some n.0) r' else r').ready ≡ true)
          (sym (both (c - 1) (contains d r.waiting) z w))
          (listed_last d n.0 r.ready (find_node_id d nodes n.0 n.1)))
    where
      both : (a : ℕ) (b : Bool) → a ≡ 0 → b ≡ true → ((a == 0) && b) ≡ true
      both a b e f = ground arith

  less_zero : (o : Option ℕ) → less 0 o ≡ some 0 → o ≡ some 0
  less_zero none e = e
  less_zero (some c) e = ground arith

  forgets_none :
      (d : Text) (r : Exec)
      → NoneForgotten r
      → NoneForgotten (count_down (plan_of nodes) d (Map.get d r.deps_left) r)
  forgets_none d r h x l w z =
      by_id (Bool-cases (text_eq d x)) (sym (deps_left-count_down nodes d x r) ∙ z)
        (ap (λ q. contains x q.0) (sym (rest_of-count_down nodes d (Map.get d r.deps_left) r)) ∙ w)
    where
      listed_after : Option ℕ → Text → Type 0
      listed_after o y = listed y (count_down (plan_of nodes) d o r).ready ≡ true

      counted_to_zero :
          (o : Option ℕ)
          → less 1 o ≡ some 0
          → listed d nodes ≡ true
          → contains d r.waiting ≡ true
          → listed d (count_down (plan_of nodes) d o r).ready ≡ true
      counted_to_zero none e l w = absurd (cc)
      counted_to_zero (some c) e l w = pushed_listed d c r l w (some_inj e)

      others_listed :
          (o : Option ℕ)
          → listed x r.ready ≡ true
          → listed x (count_down (plan_of nodes) d o r).ready ≡ true
      others_listed none i = i
      others_listed (some c) i =
          listed_push x (Map.get d (plan_of nodes).node_by_id)
            ((c - 1 == 0) && contains d r.waiting)
            (record r { deps_left = Map.insert d (c - 1) r.deps_left }) i

      by_id :
          (text_eq d x ≡ true) ⊎ (text_eq d x ≡ false)
          → less (if text_eq d x then 1 else 0) (Map.get x r.deps_left) ≡ some 0
          → contains x r.waiting ≡ true
          → listed x (count_down (plan_of nodes) d (Map.get d r.deps_left) r).ready ≡ true
      by_id (inl same) zero_now waits =
          let d_is_x = (text_eq_iff d x).0 same in
          subst
            (λ y. listed y (count_down (plan_of nodes) d (Map.get d r.deps_left) r).ready ≡ true)
            d_is_x
            (counted_to_zero (Map.get d r.deps_left)
              (subst (λ y. less 1 (Map.get y r.deps_left) ≡ some 0) (sym d_is_x)
                (rw same at zero_now))
              (subst (λ y. listed y nodes ≡ true) (sym d_is_x) l)
              (subst (λ y. contains y r.waiting ≡ true) (sym d_is_x) waits))
      by_id (inr other) zero_now waits =
          others_listed (Map.get d r.deps_left)
            (h x l waits (less_zero (Map.get x r.deps_left) (rw other at zero_now)))

  pub release-NoneForgotten :
      (ds : List Text) (r : Exec) → NoneForgotten r → NoneForgotten (release (plan_of nodes) ds r)
  unfolding release
  release-NoneForgotten [] r h = h
  release-NoneForgotten (d ∷ ds) r h =
      release-NoneForgotten ds (count_down (plan_of nodes) d (Map.get d r.deps_left) r)
        (forgets_none d r h)
