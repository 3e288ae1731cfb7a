-- ===== src/Tasks/Cycle.antt =====
-- src/dag.rs: `find_cycle` and `cycle_dfs`. `none` outside means that the fuel ran out.
pub mod Laws
pub mod Graph
use rdsctl.Base.{
  if◌then◌else◌, unwrap_or, length, Text, text_eq, ℕ, zero, suc, ◌+◌, Bool, true, false, Option,
  none, some, List, [], ◌∷◌, text_key,
}
use rdsctl.Base.Map
use rdsctl.Tasks.{TaskNode, IdSet, contains}

pub record Marks : Type 0 where
  pub visiting : IdSet
  pub visited : IdSet

-- `nodes.iter().find(|n| n.id == id)`.
unfoldable pub find_node : Text → List TaskNode → Option TaskNode
find_node id [] = none
find_node id (n ∷ ns) = let rest = find_node id ns in if text_eq n.id id then some n else rest

-- What follows a search that met no cycle.
abbrev pub unless_hit :
    Option (Bool × Marks) → (Marks → Option (Bool × Marks)) → Option (Bool × Marks)
unless_hit none k = none
unless_hit (some (true, m)) k = some (true, m)
unless_hit (some (false, m)) k = k m

-- `for d in &n.deps`, with the recursive call `dfs`.
unfoldable pub any_dep :
    (Text → Marks → Option (Bool × Marks)) → List Text → Marks → Option (Bool × Marks)
any_dep dfs [] m = some (false, m)
any_dep dfs (d ∷ ds) m = unless_hit (dfs d m) (any_dep dfs ds)

abbrev pub deps_of : Option TaskNode → List Text
deps_of none = []
deps_of (some n) = n.deps

abbrev pub enter : Text → Marks → Marks
enter id m = record m { visiting = Map.insert id tt m.visiting }

abbrev pub leave : Text → Marks → Marks
leave id m = record { visiting = Map.remove id m.visiting; visited = Map.insert id tt m.visited }

unfoldable pub cycle_dfs : List TaskNode → ℕ → Text → Marks → Option (Bool × Marks)
unfolding contains any_dep find_node Map.insert Map.remove
cycle_dfs nodes zero id m = none
cycle_dfs nodes (suc f) id m =
    let searched = any_dep (cycle_dfs nodes f) (deps_of (find_node id nodes)) (enter id m) in
    if contains id m.visiting
    then some (true, m)
    else if contains id m.visited
    then some (false, m)
    else unless_hit searched (λ m'. some (false, leave id m'))

-- `for n in nodes`, over the nodes that are left.
abbrev pub search_next :
    Text → Option (Bool × Marks) → (Marks → Option (Option Text)) → Option (Option Text)
search_next id none k = none
search_next id (some (true, m)) k = some (some id)
search_next id (some (false, m)) k = k m

unfoldable pub search_from : List TaskNode → ℕ → List TaskNode → Marks → Option (Option Text)
unfolding cycle_dfs
search_from nodes f [] m = some none
search_from nodes f (n ∷ ns) m =
    search_next n.id (cycle_dfs nodes f n.id m) (search_from nodes f ns)

abbrev pub no_marks : Marks
no_marks = record { visiting = []; visited = [] }

-- A search goes at most one node deeper than there are nodes.
unfoldable pub find_cycle : List TaskNode → Option Text
unfolding search_from
find_cycle nodes = unwrap_or (search_from nodes (length nodes + 1) nodes no_marks) none
