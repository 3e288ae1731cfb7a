-- ===== src/Tasks/Execute/Joins.antt =====
-- src/dag.rs: the order in which the nodes of a wave end has the same nodes.
use rdsctl.Base.{
  Bool-cases, All, Text, text_eq, text_eq_iff, ℕ, zero, suc, ◌≡◌, refl, inl, inr, false, none, some,
  List, [], ◌∷◌, arith,
}
use rdsctl.Tasks.{TaskNode}
use rdsctl.Tasks.Cycle.{find_node}
use rdsctl.Tasks.Execute.{insert_at, join_order}
use rdsctl.Tasks.Execute.Edges.{HasDistinctIds}

-- The lists of `insert_at` and `join_order` hold the same nodes.
All-insert_at :
    (P : TaskNode → Type 0) (i : ℕ) (n : TaskNode) (ns : List TaskNode)
    → P n
    → All P ns
    → All P (insert_at i n ns)
unfolding insert_at
All-insert_at P i n [] p a = (p, tt)
All-insert_at P zero n (m ∷ ns) p a = (p, a)
All-insert_at P (suc i) n (m ∷ ns) p a = (a.0, All-insert_at P i n ns p a.1)

pub All-join_order :
    (P : TaskNode → Type 0) (f : Text → ℕ) (ns : List TaskNode) → All P ns → All P (join_order f ns)
unfolding join_order
All-join_order P f [] a = tt
All-join_order P f (n ∷ ns) a =
    All-insert_at P (f n.id) n (join_order f ns) a.0 (All-join_order P f ns a.1)

find-insert_at :
    (x : Text) (i : ℕ) (n : TaskNode) (ns : List TaskNode)
    → text_eq n.id x ≡ false
    → find_node x ns ≡ none
    → find_node x (insert_at i n ns) ≡ none
unfolding insert_at find_node
find-insert_at x i n [] e h = rw e refl
find-insert_at x zero n (m ∷ ns) e h = rw e h
find-insert_at x (suc i) n (m ∷ ns) e h = ground (arith, find-insert_at x i n ns)

find-join_order :
    (x : Text) (f : Text → ℕ) (ns : List TaskNode)
    → find_node x ns ≡ none
    → find_node x (join_order f ns) ≡ none
unfolding join_order find_node
find-join_order x f [] h = refl
find-join_order x f (n ∷ ns) h = elim (Bool-cases (text_eq n.id x)) [
  | inl e ↦ absurd (some_none (rw e at h))
  | inr e ↦ find-insert_at x (f n.id) n (join_order f ns) e (find-join_order x f ns (rw e at h))
]
  where
    some_none : {m : TaskNode} → some m ≡ none → ⊥
    some_none e = cc

distinct-insert_at :
    (i : ℕ) (n : TaskNode) (ns : List TaskNode)
    → find_node n.id ns ≡ none
    → HasDistinctIds ns
    → HasDistinctIds (insert_at i n ns)
unfolding insert_at find_node
distinct-insert_at i n [] h d = (refl, tt)
distinct-insert_at zero n (m ∷ ns) h d = (h, d)
distinct-insert_at (suc i) n (m ∷ ns) h (a, d) = (
  find-insert_at m.id i n ns (ground (arith, text_eq_iff m.id n.id, text_eq_iff n.id m.id)) a,
  distinct-insert_at i n ns (ground arith) d,
)

pub distinct-join_order :
    (f : Text → ℕ) (ns : List TaskNode) → HasDistinctIds ns → HasDistinctIds (join_order f ns)
unfolding join_order
distinct-join_order f [] d = tt
distinct-join_order f (n ∷ ns) (a, d) =
    distinct-insert_at (f n.id) n (join_order f ns) (find-join_order n.id f ns a)
      (distinct-join_order f ns d)

-- A property that does not depend on the id holds of the nodes with other ids.
pub All-others :
    (P Q : TaskNode → Type 0) (x : Text) (ns : List TaskNode)
    → ((m : TaskNode) → text_eq x m.id ≡ false → P m → Q m)
    → find_node x ns ≡ none
    → All P ns
    → All Q ns
unfolding find_node
All-others P Q x [] f h a = tt
All-others P Q x (m ∷ ns) f h (p, a) = elim (Bool-cases (text_eq m.id x)) [
  | inl e ↦ absurd (some_none (rw e at h))
  | inr e ↦ (
    f m (ground (arith, text_eq_iff m.id x, text_eq_iff x m.id)) p,
    All-others P Q x ns f (rw e at h) a,
  )
]
  where
    some_none : {m : TaskNode} → some m ≡ none → ⊥
    some_none e = cc
