-- ===== src/Tasks/Cycle/Laws.antt =====
-- src/dag.rs: what `find_cycle` finds in the graph of the dependencies.
use std.Path.{fun_ext}
use mathlib.Core.Bool.{false≢true}
use mathlib.Core.WellFounded.{Acc}
use rdsctl.Base.{
  if◌then◌else◌, Bool-cases, is_some, length, keep_if, length-keep_if-le, Text, text_eq,
  text_eq_iff, text_eq_refl, ℕ, zero, suc, ◌+◌, ◌≤◌, ◌<◌, ◌≡◌, refl, sym, ap, subst, ◌∙◌, ◌⊎◌, inl,
  inr, Bool, true, false, not, Option, none, some, List, [], ◌∷◌, arith, text_key,
}
use rdsctl.Base.Map
use rdsctl.Raft.Config.{mem}
use rdsctl.Tasks.{TaskNode, IdSet, contains}
use rdsctl.Tasks.Cycle.{Marks, find_node, unless_hit, any_dep, deps_of, enter, leave, cycle_dfs}

pub contains-insert :
    (k v : Text) (s : IdSet)
    → contains v (Map.insert k tt s) ≡ (if text_eq k v then true else contains v s)
unfolding contains
contains-insert k v s =
    rw (Map.get-insert k v tt s)
      (elim (Bool-cases (text_eq k v)) [ inl e ↦ rw e refl | inr e ↦ rw e refl ])

pub contains-remove :
    (k v : Text) (s : IdSet)
    → contains v (Map.remove k s) ≡ (if text_eq k v then false else contains v s)
unfolding contains
contains-remove k v s =
    rw (Map.get-remove k v s)
      (elim (Bool-cases (text_eq k v)) [ inl e ↦ rw e refl | inr e ↦ rw e refl ])

-- The members that are no ids of `h`.
unfoldable pub free_in : (Text → Bool) → List TaskNode → ℕ
free_in h ns = length (keep_if (λ n. not (h n.id)) ns)

module _ (h h' : Text → Bool) (more : (v : Text) → h v ≡ true → h' v ≡ true) where
  free_in-le : (ns : List TaskNode) → free_in h' ns ≤ free_in h ns
  unfolding free_in
  free_in-le [] = omega arith
  free_in-le (n ∷ ns) = ground (arith, free_in-le ns, more n.id)

  pub free_in-falls :
      (id : Text) (ns : List TaskNode)
      → h id ≡ false
      → h' id ≡ true
      → is_some (find_node id ns) ≡ true
      → free_in h' ns < free_in h ns
  unfolding free_in find_node
  free_in-falls id [] a b e = absurd cc
  free_in-falls id (n ∷ ns) a b e =
      ground (arith, free_in-le ns, free_in-falls id ns a b, more n.id, text_eq_iff n.id id)

-- A task that needs another is in the list.
pub needs_node : (d : Text) (o : Option TaskNode) → mem d (deps_of o) ≡ true → is_some o ≡ true
needs_node d none e = absurd cc
needs_node d (some n) e = refl

pub free_in-bound : (h : Text → Bool) (ns : List TaskNode) → free_in h ns < length ns + 1
unfolding free_in
free_in-bound h ns = omega (arith, length-keep_if-le (λ n. not (h n.id)) ns)

module _ (nodes : List TaskNode) where
  -- The task `id` waits for `d`.
  abbrev pub Needs : Text → Text → Type 0
  Needs d id = mem d (deps_of (find_node id nodes)) ≡ true

  -- `d` is reached from `id` by one dependency or more.
  pub data Reaches : Text → Text → Type 0 where
    direct : (id d : Text) → Needs d id → Reaches id d
    further : (id d e : Text) → Needs d id → Reaches d e → Reaches id e

  pub extend : (a b c : Text) → Reaches a b → Needs c b → Reaches a c
  extend _ _ c (direct a b n) m = further a b c n (direct b c m)
  extend _ _ c (further a d b n r) m = further a d c n (extend d b c r m)

  -- No chain of dependencies from the task goes on for ever.
  abbrev pub IsGrounded : Text → Type 0
  IsGrounded = Acc Needs

  -- A cycle among the task and what it waits for.
  abbrev pub LeadsToCycle : Text → Type 0
  LeadsToCycle id = (y : Text) × (id ≡ y ⊎ Reaches id y) × Reaches y y

  through : (id d : Text) → Needs d id → LeadsToCycle d → LeadsToCycle id
  through id d n (y, inl e, r) = (y, inr (subst (Reaches id) e (direct id d n)), r)
  through id d n (y, inr p, r) = (y, inr (further id d y n p), r)

  abbrev pub has : Marks → Text → Bool
  has m v = contains v m.visiting

  abbrev pub Settled : Marks → Type 0
  Settled m = (v : Text) → contains v m.visited ≡ true → IsGrounded v

  -- What a search from `id` answers.
  abbrev pub Sound : Marks → Text → Option (Bool × Marks) → Type 0
  Sound m id none = ⊥
  Sound m id (some (true, m')) = LeadsToCycle id
  Sound m id (some (false, m')) = Settled m' × (has m' ≡ has m) × IsGrounded id

  abbrev SoundAny : Marks → List Text → Option (Bool × Marks) → Type 0
  SoundAny m ds none = ⊥
  SoundAny m ds (some (true, m')) = (d : Text) × (mem d ds ≡ true) × LeadsToCycle d
  SoundAny m ds (some (false, m')) =
      Settled m' × (has m' ≡ has m) × ((d : Text) → mem d ds ≡ true → IsGrounded d)

  mem_first : (d : Text) (ds : List Text) → mem d (d ∷ ds) ≡ true
  mem_first d ds = rw (text_eq_refl d) refl

  mem_later : (d e : Text) (ds : List Text) → mem d ds ≡ true → mem d (e ∷ ds) ≡ true
  mem_later d e ds h = ground (arith, text_eq_iff e d)

  IsGrounded-first :
      (d e : Text) (ds : List Text)
      → IsGrounded d
      → ((x : Text) → mem x ds ≡ true → IsGrounded x)
      → mem e (d ∷ ds) ≡ true
      → IsGrounded e
  IsGrounded-first d e ds a all h = elim (Bool-cases (text_eq d e)) [
    | inl same ↦ subst IsGrounded ((text_eq_iff d e).0 same) a
    | inr other ↦ all e (rw other at h)
  ]

  widen :
      (m m' : Marks) (d : Text) (ds : List Text) (r : Option (Bool × Marks))
      → has m' ≡ has m
      → IsGrounded d
      → SoundAny m' ds r
      → SoundAny m (d ∷ ds) r
  widen m m' d ds none e a s = s
  widen m m' d ds (some (true, n)) e a (x, i, c) = (x, mem_later x d ds i, c)
  widen m m' d ds (some (false, n)) e a (s, e', all) =
      (s, e' ∙ e, λ x i. IsGrounded-first d x ds a all i)

  any_step :
      (m : Marks) (d : Text) (ds : List Text) (r : Option (Bool × Marks))
      (next : Marks → Option (Bool × Marks))
      → Sound m d r
      → ((m' : Marks) → Settled m' → has m' ≡ has m → SoundAny m' ds (next m'))
      → SoundAny m (d ∷ ds) (unless_hit r next)
  any_step m d ds none next s go = absurd s
  any_step m d ds (some (true, n)) next s go = (d, mem_first d ds, s)
  any_step m d ds (some (false, n)) next (s, e, a) go = widen m n d ds (next n) e a (go n s e)

  any_ok :
      (f : ℕ)
      → ((d : Text) (m : Marks)
          → Settled m
          → ((v : Text) → has m v ≡ true → Reaches v d)
          → free_in (has m) nodes < f
          → Sound m d (cycle_dfs nodes f d m))
      → (ds : List Text) (m : Marks) → Settled m
      → ((d v : Text) → mem d ds ≡ true → has m v ≡ true → Reaches v d)
      → ((d : Text) → mem d ds ≡ true → free_in (has m) nodes < f)
      → SoundAny m ds (any_dep (cycle_dfs nodes f) ds m)
  unfolding any_dep
  any_ok f rec [] m s path enough = (s, refl, λ d e. absurd (false≢true e))
  any_ok f rec (d ∷ ds) m s path enough =
      any_step m d ds (cycle_dfs nodes f d m) (any_dep (cycle_dfs nodes f) ds)
        (rec d m s (λ v. path d v (mem_first d ds)) (enough d (mem_first d ds)))
        (λ m' s' e.
          any_ok f rec ds m' s'
            (λ x v i h. path x v (mem_later x d ds i) (ap (λ g. g v) (sym e) ∙ h))
            (λ x i. subst (λ g. free_in g nodes < f) (sym e) (enough x (mem_later x d ds i))))

  Settled-leave :
      (id : Text) (m : Marks)
      → Settled m
      → ((d : Text) → Needs d id → IsGrounded d)
      → Settled (leave id m)
  Settled-leave id m s all v h = elim (Bool-cases (text_eq id v)) [
    | inl e ↦ subst IsGrounded ((text_eq_iff id v).0 e) (Acc.intro id all)
    | inr e ↦ s v (rw (contains-insert id v m.visited, e) at h)
  ]

  has-leave :
      (id : Text) (m m' : Marks)
      → has m id ≡ false
      → has m' ≡ has (enter id m)
      → (v : Text) → has (leave id m') v ≡ has m v
  has-leave id m m' fresh e v = elim (Bool-cases (text_eq id v)) [
    | inl same ↦
        rw (contains-remove id v m'.visiting, same)
          (sym (subst (λ x. has m x ≡ false) ((text_eq_iff id v).0 same) fresh))
    | inr other ↦
        rw (contains-remove id v m'.visiting, other)
          (ap (λ g. g v) e ∙ rw (contains-insert id v m.visiting, other) refl)
  ]

  -- The end of the search at a task, when its dependencies were searched.
  close :
      (id : Text) (m : Marks) (r : Option (Bool × Marks))
      → has m id ≡ false
      → SoundAny (enter id m) (deps_of (find_node id nodes)) r
      → Sound m id (unless_hit r (λ m'. some (false, leave id m')))
  close id m none fresh s = s
  close id m (some (true, m')) fresh (d, i, c) = through id d i c
  close id m (some (false, m')) fresh (s, e, all) =
      (Settled-leave id m' s all, fun_ext (has-leave id m m' fresh e), Acc.intro id all)

  has-enter : (id v : Text) (m : Marks) → has m v ≡ true → has (enter id m) v ≡ true
  has-enter id v m h = rw (contains-insert id v m.visiting) (ground arith)

  on_stack :
      (id d v : Text) (m : Marks)
      → ((x : Text) → has m x ≡ true → Reaches x id)
      → Needs d id
      → has (enter id m) v ≡ true
      → Reaches v d
  on_stack id d v m path n h = elim (Bool-cases (text_eq id v)) [
    | inl same ↦ subst (λ x. Reaches x d) ((text_eq_iff id v).0 same) (direct id d n)
    | inr other ↦ extend v id d (path v (rw (contains-insert id v m.visiting, other) at h)) n
  ]

  visited_case :
      (id : Text) (m : Marks) (r : Option (Bool × Marks)) (b : Bool)
      → contains id m.visited ≡ b
      → Settled m
      → Sound m id r
      → Sound m id (if b then some (false, m) else r)
  visited_case id m r true e s k = (s, refl, s id e)
  visited_case id m r false e s k = k

  visiting_case :
      (id : Text) (m : Marks) (r : Option (Bool × Marks)) (b : Bool)
      → has m id ≡ b
      → ((v : Text) → has m v ≡ true → Reaches v id)
      → (has m id ≡ false → Sound m id r)
      → Sound m id (if b then some (true, m) else r)
  visiting_case id m r true e path k = (id, inl refl, path id e)
  visiting_case id m r false e path k = k e

  entered : (id : Text) (m : Marks) → has (enter id m) id ≡ true
  entered id m = rw (contains-insert id id m.visiting, text_eq_refl id) refl

  pub dfs_ok :
      (f : ℕ) (id : Text) (m : Marks)
      → Settled m
      → ((v : Text) → has m v ≡ true → Reaches v id)
      → free_in (has m) nodes < f
      → Sound m id (cycle_dfs nodes f id m)
  unfolding cycle_dfs
  dfs_ok zero id m s path enough = absurd (omega arith)
  dfs_ok (suc f) id m s path enough =
      visiting_case id m _ (contains id m.visiting) refl path (λ fresh.
        visited_case id m _ (contains id m.visited) refl s (
          close id m (any_dep (cycle_dfs nodes f) (deps_of (find_node id nodes)) (enter id m)) fresh
            (any_ok f (dfs_ok f) (deps_of (find_node id nodes)) (enter id m) s
              (λ d v. on_stack id d v m path)
              (λ d n. omega (
                arith,
                free_in-falls (has m) (has (enter id m)) (λ v. has-enter id v m) id nodes fresh
                    (entered id m) (needs_node d (find_node id nodes) n),
              )))))
