-- ===== src/Tasks/Execute/Release.antt =====
-- src/dag.rs: the end of a node counts down the nodes that wait for it, and makes those ready that
-- wait for no other.
use rdsctl.Base.{
  ◌==◌, if◌then◌else◌, Bool-cases, All, All-append, Text, text_eq, text_eq_iff, ℕ, ◌+◌, ◌-◌, ◌≤◌,
  ◌≡◌, refl, sym, ap, subst, ◌∙◌, inl, inr, Bool, true, false, ◌&&◌, Option, none, some, List, [],
  ◌∷◌, ◌++◌, arith, text_key,
}
use rdsctl.Base.Map
use rdsctl.Base.Map.{Map}
use rdsctl.Tasks.{NodeResult, TaskNode, IdSet, contains}
use rdsctl.Tasks.Cycle.{find_node}
use rdsctl.Tasks.Plan.{Event, Exec, Plan, plan_of, push_ready, count_down, release}
use rdsctl.Tasks.Execute.Edges.{count, HasDistinctIds, found_or, get-index}

abbrev pub less : ℕ → Option ℕ → Option ℕ
less k none = none
less k (some c) = some (c - k)

pub find_node_id :
    (x : Text) (ns : List TaskNode) (n : TaskNode) → find_node x ns ≡ some n → n.id ≡ x
unfolding find_node
find_node_id x [] n h = absurd cc
find_node_id x (m ∷ ns) n h = elim (Bool-cases (text_eq m.id x)) [
  | inl e ↦ ap (λ (o : Option TaskNode). id_or o x) (sym (rw e at h)) ∙ (text_eq_iff m.id x).0 e
  | inr e ↦ find_node_id x ns n (rw e at h)
]
  where
    id_or : Option TaskNode → Text → Text
    id_or none d = d
    id_or (some k) d = k.id

module _ (nodes : List TaskNode) where
  abbrev pub plan : Plan
  plan = plan_of nodes

  pub deps_left-count_down :
      (d x : Text) (r : Exec)
      → Map.get x (count_down plan d (Map.get d r.deps_left) r).deps_left
        ≡ less (if text_eq d x then 1 else 0) (Map.get x r.deps_left)
  deps_left-count_down d x r = by_count (Map.get d r.deps_left) refl
    where
      pushed :
          (o : Option TaskNode) (b : Bool) (r' : Exec)
          → (if b then push_ready o r' else r').deps_left ≡ r'.deps_left
      pushed none true r' = refl
      pushed none false r' = refl
      pushed (some n) true r' = refl
      pushed (some n) false r' = refl

      by_count :
          (o : Option ℕ)
          → Map.get d r.deps_left ≡ o
          → Map.get x (count_down plan d o r).deps_left
            ≡ less (if text_eq d x then 1 else 0) (Map.get x r.deps_left)
      by_count none e = ground (arith, text_eq_iff d x)
      by_count (some c) e =
          ap (Map.get x) (
            pushed (Map.get d plan.node_by_id) ((c - 1 == 0) && contains d r.waiting)
              (record r { deps_left = Map.insert d (c - 1) r.deps_left }))
          ∙ ground (arith, Map.get-insert d x (c - 1) r.deps_left, text_eq_iff d x)

  -- All but the counters and the list of the nodes that are ready.
  abbrev pub rest_of : Exec → IdSet × Bool × Map Text NodeResult × List Event
  rest_of r = (r.waiting, r.any_failed, r.results, r.events)

  pub rest_of-push :
      (o : Option TaskNode) (b : Bool) (r' : Exec)
      → rest_of (if b then push_ready o r' else r') ≡ rest_of r'
  rest_of-push none true r' = refl
  rest_of-push none false r' = refl
  rest_of-push (some n) true r' = refl
  rest_of-push (some n) false r' = refl

  pub rest_of-count_down :
      (d : Text) (o : Option ℕ) (r : Exec) → rest_of (count_down plan d o r) ≡ rest_of r
  rest_of-count_down d none r = refl
  rest_of-count_down d (some c) r =
      rest_of-push (Map.get d plan.node_by_id) ((c - 1 == 0) && contains d r.waiting)
        (record r { deps_left = Map.insert d (c - 1) r.deps_left })

  pub rest_of-release : (ds : List Text) (r : Exec) → rest_of (release plan ds r) ≡ rest_of r
  unfolding release
  rest_of-release [] r = refl
  rest_of-release (d ∷ ds) r =
      rest_of-release ds (count_down plan d (Map.get d r.deps_left) r)
      ∙ rest_of-count_down d (Map.get d r.deps_left) r

  pub deps_left-release :
      (ds : List Text) (x : Text) (r : Exec)
      → Map.get x (release plan ds r).deps_left ≡ less (count x ds) (Map.get x r.deps_left)
  unfolding release
  deps_left-release [] x r = unchanged (Map.get x r.deps_left)
    where
      unchanged : (o : Option ℕ) → o ≡ less 0 o
      unchanged none = refl
      unchanged (some c) = ground arith
  deps_left-release (d ∷ ds) x r =
      deps_left-release ds x (count_down plan d (Map.get d r.deps_left) r)
      ∙ (ap (less (count x ds)) (deps_left-count_down d x r)
          ∙ twice (if text_eq d x then 1 else 0) (count x ds) (Map.get x r.deps_left))
    where
      twice : (a b : ℕ) (o : Option ℕ) → less b (less a o) ≡ less (a + b) o
      twice a b none = refl
      twice a b (some c) = ground arith

  -- The node may start: it waits, and no dependency of it is left.
  abbrev pub IsReady : Exec → TaskNode → Type 0
  IsReady r n =
      (find_node n.id nodes ≡ some n)
      × (contains n.id r.waiting ≡ true)
      × (Map.get n.id r.deps_left ≡ some 0)

  -- The nodes that are ready, and counters that suffice for the ends that are still to come.
  pub record Counting (r : Exec) (ds : List Text) : Type 0 where
    pub ready_ok : All (IsReady r) r.ready
    pub distinct : HasDistinctIds r.ready
    pub enough : (x : Text) (c : ℕ) → Map.get x r.deps_left ≡ some c → count x ds ≤ c

  distinct_snoc :
      (ns : List TaskNode) (n : TaskNode)
      → HasDistinctIds ns
      → find_node n.id ns ≡ none
      → HasDistinctIds (ns ++ n ∷ [])
  unfolding find_node
  distinct_snoc [] n h e = (refl, tt)
  distinct_snoc (m ∷ ns) n (f, h) e = (
    find_snoc m.id n ns f (ground (arith, text_eq_iff m.id n.id, text_eq_iff n.id m.id)),
    distinct_snoc ns n h (ground arith),
  )
    where
      find_snoc :
          (x : Text) (n : TaskNode) (ns : List TaskNode)
          → find_node x ns ≡ none
          → text_eq n.id x ≡ false
          → find_node x (ns ++ n ∷ []) ≡ none
      find_snoc x n [] f e = rw e refl
      find_snoc x n (m ∷ ns) f e = ground (arith, find_snoc x n ns)

  Counting-push :
      (o : Option TaskNode) (b : Bool) (r : Exec) (ds : List Text)
      → Counting r ds
      → ((n : TaskNode) → o ≡ some n → b ≡ true → IsReady r n × (find_node n.id r.ready ≡ none))
      → Counting (if b then push_ready o r else r) ds
  Counting-push none true r ds k new = k
  Counting-push none false r ds k new = k
  Counting-push (some n) false r ds k new = k
  Counting-push (some n) true r ds k new = record {
    ready_ok = All-append (IsReady r) r.ready (n ∷ []) k.ready_ok ((new n refl refl).0, tt);
    distinct = distinct_snoc r.ready n k.distinct (new n refl refl).1;
    enough = k.enough;
  }

  -- A node that is ready is not counted down again.
  not_counted :
      (r : Exec) (d : Text) (ds : List Text) (n : TaskNode)
      → Counting r (d ∷ ds)
      → IsReady r n
      → text_eq d n.id ≡ false
  not_counted r d ds n k h = elim (Bool-cases (text_eq d n.id)) [
    | inl e ↦ absurd (
        let a = k.enough n.id 0 h.2 in
        omega (arith, ap {B = ℕ} (λ (b : Bool). if b then 1 else 0) e, a))
    | inr e ↦ e
  ]

  none_with_id :
      (d : Text) (r : Exec) (ns : List TaskNode)
      → ((n : TaskNode) → IsReady r n → text_eq d n.id ≡ false)
      → All (IsReady r) ns
      → find_node d ns ≡ none
  unfolding find_node
  none_with_id d r [] h a = refl
  none_with_id d r (n ∷ ns) h (i, a) =
      ground (arith, none_with_id d r ns h a, h n i, text_eq_iff d n.id, text_eq_iff n.id d)

  counted-IsReady :
      (d : Text) (c : ℕ) (r : Exec) (ns : List TaskNode)
      → ((n : TaskNode) → IsReady r n → text_eq d n.id ≡ false)
      → All (IsReady r) ns
      → All (IsReady (record r { deps_left = Map.insert d c r.deps_left })) ns
  counted-IsReady d c r [] h a = tt
  counted-IsReady d c r (n ∷ ns) h ((f, w, z), a) = (
    (f, w, rw (Map.get-insert d n.id c r.deps_left, h n (f, w, z)) z),
    counted-IsReady d c r ns h a,
  )

  pub node_by_id_lem :
      (x : Text)
      → HasDistinctIds nodes
      → Map.get x plan.node_by_id ≡ found_or (λ n. n) (find_node x nodes) none
  unfolding plan_of Map.get
  node_by_id_lem x u = get-index (λ n. n) x nodes [] u

  found_same : (o : Option TaskNode) (n : TaskNode) → found_or (λ m. m) o none ≡ some n → o ≡ some n
  found_same none n e = absurd cc
  found_same (some m) n e = e

  zero_left : (c : ℕ) (b : Bool) → ((c - 1 == 0) && b) ≡ true → (c - 1 ≡ 0) × (b ≡ true)
  zero_left c true h = ground arith
  zero_left c false h = absurd (ground arith)

  counted_down :
      (d : Text) (c : ℕ) (r : Exec) (ds : List Text)
      → HasDistinctIds nodes
      → Map.get d r.deps_left ≡ some c
      → Counting r (d ∷ ds)
      → Counting (count_down plan d (some c) r) ds
  counted_down d c r ds u e k =
      Counting-push (Map.get d plan.node_by_id) ((c - 1 == 0) && contains d r.waiting) r' ds
        (record {
          ready_ok = counted-IsReady d (c - 1) r r.ready others k.ready_ok;
          distinct = k.distinct;
          enough = λ x b h. still x b (rw (Map.get-insert d x (c - 1) r.deps_left) at h);
        })
        (λ n o h. (
          newly_ready n (found_same (find_node d nodes) n (sym (node_by_id_lem d u) ∙ o))
              (zero_left c (contains d r.waiting) h),
          subst (λ y. find_node y r.ready ≡ none)
              (sym (
                find_node_id d nodes n
                  (found_same (find_node d nodes) n (sym (node_by_id_lem d u) ∙ o))))
              (none_with_id d r r.ready others k.ready_ok),
        ))
    where
      r' : Exec
      r' = record r { deps_left = Map.insert d (c - 1) r.deps_left }

      others : (n : TaskNode) → IsReady r n → text_eq d n.id ≡ false
      others n h = not_counted r d ds n k h

      still :
          (x : Text) (b : ℕ)
          → (if text_eq d x then some (c - 1) else Map.get x r.deps_left) ≡ some b
          → count x ds ≤ b
      still x b h = elim (Bool-cases (text_eq d x)) [
        | inl same ↦
            let a = k.enough d c e in
            let b' = subst (λ y. count y (d ∷ ds) ≤ c) ((text_eq_iff d x).0 same) a in
            ground (arith, rw same at h)
        | inr other ↦ let a = k.enough x b (rw other at h) in ground arith
      ]

      newly_ready :
          (n : TaskNode)
          → find_node d nodes ≡ some n
          → (c - 1 ≡ 0) × (contains d r.waiting ≡ true)
          → IsReady r' n
      newly_ready n f (z, w) =
          subst
            (λ y.
              (find_node y nodes ≡ some n)
              × (contains y r.waiting ≡ true)
              × (Map.get y r'.deps_left ≡ some 0))
            (sym (find_node_id d nodes n f))
            (f, w, Map.get-insert_self d (c - 1) r.deps_left ∙ ap some z)

  pub Counting-release :
      (ds : List Text) (r : Exec)
      → HasDistinctIds nodes
      → Counting r ds
      → Counting (release plan ds r) []
  unfolding release
  Counting-release [] r u k = k
  Counting-release (d ∷ ds) r u k =
      Counting-release ds (count_down plan d (Map.get d r.deps_left) r) u
        (by_count (Map.get d r.deps_left) refl)
    where
      by_count : (o : Option ℕ) → Map.get d r.deps_left ≡ o → Counting (count_down plan d o r) ds
      by_count none e = record {
        ready_ok = k.ready_ok;
        distinct = k.distinct;
        enough = λ x c h. omega (arith, k.enough x c h);
      }
      by_count (some c) e = counted_down d c r ds u e k
