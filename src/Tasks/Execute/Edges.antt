-- ===== src/Tasks/Execute/Edges.antt =====
-- src/dag.rs: the maps that `execute` builds from the nodes: `deps_left`, `dependents`, `node_by_id`.
use rdsctl.Base.{
  if◌then◌else◌, Bool-cases, Text, text_eq, text_eq_iff, ℕ, ◌+◌, ◌≡◌, refl, ap, subst, ◌∙◌, inl,
  inr, Option, none, some, List, [], ◌∷◌, ◌++◌, arith, text_key,
}
use rdsctl.Base.Map
use rdsctl.Base.Map.{Map}
use rdsctl.Tasks.{TaskNode, index}
use rdsctl.Tasks.Cycle.{find_node, deps_of}
use rdsctl.Tasks.Plan.{or_empty, add_edges, edges, plan_of}

-- How often a text stands in a list.
abbrev pub count : Text → List Text → ℕ
count x [] = 0
count x (y ∷ ys) = (if text_eq y x then 1 else 0) + count x ys

count-append : (x : Text) (ys zs : List Text) → count x (ys ++ zs) ≡ count x ys + count x zs
count-append x [] zs = omega arith
count-append x (y ∷ ys) zs = omega (arith, count-append x ys zs)

-- The ids of the nodes differ.
abbrev pub HasDistinctIds : List TaskNode → Type 0
HasDistinctIds [] = Unit
HasDistinctIds (n ∷ ns) = (find_node n.id ns ≡ none) × HasDistinctIds ns

abbrev pub found_or {ℓ} : {V : Type ℓ} → (TaskNode → V) → Option TaskNode → Option V → Option V
found_or f none o = o
found_or f (some n) o = some (f n)

pub get-index {ℓ} :
    {V : Type ℓ} (f : TaskNode → V) (x : Text) (ns : List TaskNode) (m : Map Text V)
    → HasDistinctIds ns
    → Map.get x (index f ns m) ≡ found_or f (find_node x ns) (Map.get x m)
unfolding index find_node
get-index f x [] m h = refl
get-index f x (n ∷ ns) m h = elim (Bool-cases (text_eq n.id x)) [
  | inl e ↦
      get-index f x ns (Map.insert n.id (f n) m) h.1
      ∙ rw (Map.get-insert n.id x (f n) m, e)
          (rw (subst (λ y. find_node y ns ≡ none) ((text_eq_iff n.id x).0 e) h.0) refl)
  | inr e ↦
      get-index f x ns (Map.insert n.id (f n) m) h.1 ∙ rw (Map.get-insert n.id x (f n) m, e) refl
]

get-insert_or {ℓ} :
    {A : Type ℓ} (e d : Text) (v : List A) (m : Map Text (List A))
    → or_empty (Map.get d (Map.insert e v m)) ≡ (if text_eq e d then v else or_empty (Map.get d m))
get-insert_or e d v m = elim (Bool-cases (text_eq e d)) [
  | inl h ↦ rw (Map.get-insert e d v m, h) refl
  | inr h ↦ rw (Map.get-insert e d v m, h) refl
]

count-add_edges :
    (x d id : Text) (ds : List Text) (m : Map Text (List Text))
    → count x (or_empty (Map.get d (add_edges id ds m)))
      ≡ count x (or_empty (Map.get d m)) + (if text_eq id x then count d ds else 0)
unfolding add_edges
count-add_edges x d id [] m = ground arith
count-add_edges x d id (e ∷ ds) m =
    let old = or_empty (Map.get e m) in
    let eq = count-add_edges x d id ds (Map.insert e (old ++ id ∷ []) m) in
    elim (Bool-cases (text_eq e d)) [
      | inl h ↦
          let same = ap (λ y. count x (or_empty (Map.get y m))) ((text_eq_iff e d).0 h) in
          ground (
            arith,
            rw (get-insert_or e d (old ++ id ∷ []) m, h) at eq,
            count-append x old (id ∷ []),
            same,
          )
      | inr h ↦ ground (arith, rw (get-insert_or e d (old ++ id ∷ []) m, h) at eq)
    ]

-- How often nodes of this id depend on `d`.
abbrev total : Text → Text → List TaskNode → ℕ
total x d [] = 0
total x d (n ∷ ns) = (if text_eq n.id x then count d n.deps else 0) + total x d ns

count-edges :
    (x d : Text) (ns : List TaskNode) (m : Map Text (List Text))
    → count x (or_empty (Map.get d (edges ns m))) ≡ count x (or_empty (Map.get d m)) + total x d ns
unfolding edges
count-edges x d [] m = omega arith
count-edges x d (n ∷ ns) m =
    omega (arith, count-edges x d ns (add_edges n.id n.deps m), count-add_edges x d n.id n.deps m)

total-none : (x d : Text) (ns : List TaskNode) → find_node x ns ≡ none → total x d ns ≡ 0
unfolding find_node
total-none x d [] h = refl
total-none x d (n ∷ ns) h = ground (arith, total-none x d ns)

total-some :
    (x d : Text) (ns : List TaskNode) (n : TaskNode)
    → HasDistinctIds ns
    → find_node x ns ≡ some n
    → total x d ns ≡ count d n.deps
unfolding find_node
total-some x d [] n u h = absurd cc
total-some x d (m ∷ ns) n u h = elim (Bool-cases (text_eq m.id x)) [
  | inl e ↦ rw e (
      let none_left = subst (λ y. find_node y ns ≡ none) ((text_eq_iff m.id x).0 e) u.0 in
      let same = rw e at h in
      let q = ap (λ (o : Option TaskNode). count d (deps_of o)) same in
      omega (arith, total-none x d ns none_left, q))
  | inr e ↦ rw e (omega (arith, total-some x d ns n u.1 (rw e at h)))
]

-- A node is entered at the nodes that it depends on, as often as it does.
pub count-dependents :
    (x d : Text) (nodes : List TaskNode) (n : TaskNode)
    → HasDistinctIds nodes
    → find_node x nodes ≡ some n
    → count x (or_empty (Map.get d (plan_of nodes).dependents)) ≡ count d n.deps
unfolding plan_of Map.get
count-dependents x d nodes n u h =
    omega (arith, count-edges x d nodes [], total-some x d nodes n u h)
