-- ===== src/Tasks/Execute/Order.antt =====
-- src/dag.rs: the order of what `execute` does: the events, the newest first, and what they tell.
pub mod Keeps
pub mod Waves
pub mod Start
use rdsctl.Base.{
  if◌then◌else◌, Bool-cases, is_some, All, Text, text_eq, text_eq_iff, ℕ, ◌+◌, ◌-◌, ◌≤◌, ◌≡◌, sym,
  subst, inl, inr, Bool, true, false, ◌&&◌, none, some, List, [], ◌∷◌, arith, text_key,
}
use rdsctl.Base.Map
use rdsctl.Base.Map.{Map}
use rdsctl.Tasks.{TaskNode, IdSet, contains}
use rdsctl.Tasks.Cycle.{find_node}
use rdsctl.Tasks.Plan.{Event, spawned, joined, node_row, task_row, audited, Exec}
use rdsctl.Tasks.Execute.Edges.{count}

abbrev pub was_spawned : Text → List Event → Bool
was_spawned x [] = false
was_spawned x (spawned n ∷ t) = if text_eq n.id x then true else was_spawned x t
was_spawned x (joined y b ∷ t) = was_spawned x t
was_spawned x (node_row n r ∷ t) = was_spawned x t
was_spawned x (task_row m ∷ t) = was_spawned x t
was_spawned x (audited b ∷ t) = was_spawned x t

abbrev pub was_joined : Text → List Event → Bool
was_joined x [] = false
was_joined x (spawned n ∷ t) = was_joined x t
was_joined x (joined y b ∷ t) = if text_eq y x then true else was_joined x t
was_joined x (node_row n r ∷ t) = was_joined x t
was_joined x (task_row m ∷ t) = was_joined x t
was_joined x (audited b ∷ t) = was_joined x t

-- The node ended well.
abbrev pub joined_ok : Text → List Event → Bool
joined_ok x [] = false
joined_ok x (spawned n ∷ t) = joined_ok x t
joined_ok x (joined y b ∷ t) = if text_eq y x && b then true else joined_ok x t
joined_ok x (node_row n r ∷ t) = joined_ok x t
joined_ok x (task_row m ∷ t) = joined_ok x t
joined_ok x (audited b ∷ t) = joined_ok x t

-- A node starts at most once, and only after all its dependencies ended well; it ends at most once,
-- after it was started.
abbrev pub InOrder : List Event → Type 0
InOrder [] = Unit
InOrder (spawned n ∷ t) =
    All (λ d. joined_ok d t ≡ true) n.deps × (was_spawned n.id t ≡ false) × InOrder t
InOrder (joined x b ∷ t) = (was_spawned x t ≡ true) × (was_joined x t ≡ false) × InOrder t
InOrder (node_row n r ∷ t) = InOrder t
InOrder (task_row m ∷ t) = InOrder t
InOrder (audited b ∷ t) = InOrder t

-- How many of the dependencies have not ended.
abbrev pub unjoined : List Event → List Text → ℕ
unjoined t [] = 0
unjoined t (d ∷ ds) = (if was_joined d t then 0 else 1) + unjoined t ds

pub count-le-unjoined :
    (x : Text) (t : List Event) (ds : List Text)
    → was_joined x t ≡ false
    → count x ds ≤ unjoined t ds
count-le-unjoined x t [] h = omega arith
count-le-unjoined x t (d ∷ ds) h = elim (Bool-cases (text_eq d x)) [
  | inl e ↦
      let q = subst (λ y. was_joined y t ≡ false) (sym ((text_eq_iff d x).0 e)) h in
      ground (arith, count-le-unjoined x t ds h)
  | inr e ↦ ground (arith, count-le-unjoined x t ds h)
]

-- The end of a node that had not ended.
pub unjoined-joined :
    (x : Text) (b : Bool) (t : List Event) (ds : List Text)
    → was_joined x t ≡ false
    → unjoined (joined x b ∷ t) ds ≡ unjoined t ds - count x ds
unjoined-joined x b t ds h = omega (arith, exactly ds)
  where
    exactly : (ds : List Text) → unjoined (joined x b ∷ t) ds + count x ds ≡ unjoined t ds
    exactly [] = omega arith
    exactly (d ∷ ds) = elim (Bool-cases (text_eq d x)) [
      | inl e ↦
          let q = subst (λ y. was_joined y t ≡ false) (sym ((text_eq_iff d x).0 e)) h in
          ground (arith, exactly ds, text_eq_iff d x, text_eq_iff x d)
      | inr e ↦ ground (arith, exactly ds, text_eq_iff d x, text_eq_iff x d)
    ]

pub All-ended :
    (t : List Event) (ds : List Text)
    → ((x : Text) → was_joined x t ≡ true → joined_ok x t ≡ true)
    → unjoined t ds ≡ 0
    → All (λ d. joined_ok d t ≡ true) ds
All-ended t [] well z = tt
All-ended t (d ∷ ds) well z = elim (Bool-cases (was_joined d t)) [
  | inl e ↦ (well d e, All-ended t ds well (ground arith))
  | inr e ↦ absurd (ground arith)
]

-- What `execute` knows at any time, by the counters, the nodes that wait, the failure and the events.
pub record Inv (nodes : List TaskNode) (left : Map Text ℕ) (waiting : IdSet) (any_failed : Bool)
    (t : List Event) : Type 0 where
  pub counted :
      (x : Text) (n : TaskNode)
      → find_node x nodes ≡ some n
      → Map.get x left ≡ some (unjoined t n.deps)
  pub unknown : (x : Text) → find_node x nodes ≡ none → Map.get x left ≡ none
  pub fresh :
      (x : Text) → contains x waiting ≡ true → (was_spawned x t ≡ false) × (was_joined x t ≡ false)
  pub known : (x : Text) → was_joined x t ≡ true → is_some (find_node x nodes) ≡ true
  pub succeeded : any_failed ≡ false → (x : Text) → was_joined x t ≡ true → joined_ok x t ≡ true
  pub in_order : InOrder t

abbrev pub Holds : List TaskNode → Exec → Type 0
Holds nodes r = Inv nodes r.deps_left r.waiting r.any_failed r.events

-- The node was started and has not ended.
abbrev pub IsRunning : List TaskNode → Exec → TaskNode → Type 0
IsRunning nodes r n =
    (find_node n.id nodes ≡ some n)
    × (contains n.id r.waiting ≡ false)
    × (was_spawned n.id r.events ≡ true)
    × (was_joined n.id r.events ≡ false)
