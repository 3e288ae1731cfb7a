-- ===== src/Tasks/Resume/Selected.antt =====
-- src/dag.rs: looking up the nodes that run again after a restart.
use mathlib.Core.Bool.{false≢true}
use rdsctl.Base.{
  if◌then◌else◌, keep_if, any, Text, text_eq, text_eq_iff, ◌≡◌, refl, sym, ap, subst, ◌∙◌, Bool,
  true, false, Option, none, some, List, [], ◌∷◌, map,
}
use rdsctl.Raft.Config.{mem}
use rdsctl.Tasks.{TaskNode}
use rdsctl.Tasks.Cycle.{find_node}
use rdsctl.Tasks.Execute.Edges.{HasDistinctIds}
use rdsctl.Tasks.Scheduler.{PersistedNodeDef}
use rdsctl.Tasks.Resume.{is_open, has_succeeded, succeeded, pruned, to_run}

-- The persisted node of an id.
unfoldable pub find_def : Text → List PersistedNodeDef → Option PersistedNodeDef
find_def x [] = none
find_def x (nd ∷ nds) = let rest = find_def x nds in if text_eq nd.node_id x then some nd else rest

abbrev pub HasDistinctDefs : List PersistedNodeDef → Type 0
HasDistinctDefs [] = Unit
HasDistinctDefs (nd ∷ nds) = (find_def nd.node_id nds ≡ none) × HasDistinctDefs nds

abbrev pub of_option {ℓ} : {A : Type ℓ} → Option A → List A
of_option none = []
of_option (some a) = a ∷ []

abbrev pub run_if : List Text → Option PersistedNodeDef → Option TaskNode
run_if done none = none
run_if done (some nd) = if is_open nd then some (pruned done nd) else none

selected :
    (done : List Text) (x : Text) (nds : List PersistedNodeDef)
    → HasDistinctDefs nds
    → find_node x (map (pruned done) (keep_if is_open nds)) ≡ run_if done (find_def x nds)
unfolding find_node find_def
selected done x [] d = refl
selected done x (nd ∷ nds) (e, d) =
    by_tests (is_open nd) (text_eq nd.node_id x) refl refl (selected done x nds d)
  where
    absent : text_eq nd.node_id x ≡ true → find_def x nds ≡ none
    absent h = subst (λ y. find_def y nds ≡ none) ((text_eq_iff nd.node_id x).0 h) e

    by_tests :
        (a b : Bool)
        → is_open nd ≡ a
        → text_eq nd.node_id x ≡ b
        → find_node x (map (pruned done) (keep_if is_open nds)) ≡ run_if done (find_def x nds)
        → find_node x
            (map (pruned done) (if a then nd ∷ keep_if is_open nds else keep_if is_open nds))
          ≡ run_if done (if b then some nd else find_def x nds)
    by_tests true true f g ih = rw (g, f) refl
    by_tests true false f g ih = rw g ih
    by_tests false true f g ih = rw f (ih ∙ ap (run_if done) (absent g))
    by_tests false false f g ih = ih

run_if-none : (done : List Text) (o : Option PersistedNodeDef) → o ≡ none → run_if done o ≡ none
run_if-none done o e = ap (run_if done) e

distinct_selected :
    (done : List Text) (nds : List PersistedNodeDef)
    → HasDistinctDefs nds
    → HasDistinctIds (map (pruned done) (keep_if is_open nds))
distinct_selected done [] d = tt
distinct_selected done (nd ∷ nds) (e, d) =
    by_test (is_open nd)
      (selected done nd.node_id nds d ∙ run_if-none done (find_def nd.node_id nds) e)
      (distinct_selected done nds d)
  where
    by_test :
        (a : Bool)
        → find_node nd.node_id (map (pruned done) (keep_if is_open nds)) ≡ none
        → HasDistinctIds (map (pruned done) (keep_if is_open nds))
        → HasDistinctIds
            (map (pruned done) (if a then nd ∷ keep_if is_open nds else keep_if is_open nds))
    by_test true h k = (h, k)
    by_test false h k = k

-- Only an id whose node has succeeded is listed as such.
pub not_succeeded :
    (x : Text) (nds : List PersistedNodeDef) (o : Option PersistedNodeDef)
    → HasDistinctDefs nds
    → find_def x nds ≡ o
    → any has_succeeded (of_option o) ≡ false
    → mem x (map (λ nd. nd.node_id) (keep_if has_succeeded nds)) ≡ false
unfolding find_def
not_succeeded x [] o d f h = refl
not_succeeded x (nd ∷ nds) o (e, d) f h =
    by_tests (has_succeeded nd) (text_eq nd.node_id x) refl refl
      (not_succeeded x nds (find_def x nds) d refl)
  where
    here :
        any has_succeeded (of_option (if text_eq nd.node_id x then some nd else find_def x nds))
        ≡ false
    here = ap (λ q. any has_succeeded (of_option q)) f ∙ h

    none_here : text_eq nd.node_id x ≡ true → any has_succeeded (of_option (find_def x nds)) ≡ false
    none_here g =
        ap (λ q. any has_succeeded (of_option q))
          (subst (λ y. find_def y nds ≡ none) ((text_eq_iff nd.node_id x).0 g) e)

    by_tests :
        (a b : Bool)
        → has_succeeded nd ≡ a
        → text_eq nd.node_id x ≡ b
        → (any has_succeeded (of_option (find_def x nds)) ≡ false
            → mem x (map (λ nd. nd.node_id) (keep_if has_succeeded nds)) ≡ false)
        → mem x (
            map
              (λ nd. nd.node_id)
              (if a then nd ∷ keep_if has_succeeded nds else keep_if has_succeeded nds))
          ≡ false
    by_tests true true p g ih = absurd (false≢true (sym (rw (g, p) at here)))
    by_tests true false p g ih = rw g (ih (rw g at here))
    by_tests false true p g ih = ih (none_here g)
    by_tests false false p g ih = ih (rw g at here)

-- A node that runs again is found by its id, with its dependencies pruned.
pub to_run_lem :
    (x : Text) (nds : List PersistedNodeDef)
    → HasDistinctDefs nds
    → (find_node x (to_run nds) ≡ run_if (succeeded nds) (find_def x nds))
      × HasDistinctIds (to_run nds)
unfolding to_run
to_run_lem x nds d = (selected (succeeded nds) x nds d, distinct_selected (succeeded nds) nds d)
