-- ===== src/Raft/Cluster/Elections.antt =====
-- src/ha/raft.rs: in every state that a cluster reaches, a term has at most one leader.
use std.Path.{fun_ext}
use mathlib.Core.Bool.{false≢true}
use rdsctl.Base.{
  Bool-cases, length, Text, text_eq, ◌≤◌, ◌≡◌, refl, sym, ap, subst, ◌∙◌, inl, inr, true, Option,
  none, some, List, [], ◌++◌, arith, text_key,
}
use rdsctl.Base.Map
use rdsctl.Base.Map.{Map, IsSorted}
use rdsctl.Raft.{leader, Message, Outbound, NameSet, Node}
use rdsctl.Raft.Config.{mem}
use rdsctl.Raft.Config.Quorum.{both_hold}
use rdsctl.Raft.Election.Moves.{Later, Later-refl}
use rdsctl.Raft.Safety.{Core, core, active, majority_of, Effect, quiet, falls, outs_of}
use rdsctl.Raft.Replication.Leader.Cores.{append_local-core}
use rdsctl.Raft.Drive.{tick, flush}
use rdsctl.Raft.Drive.Cores.{flush-Does, tick-Does}
use rdsctl.Raft.StepDown.Cores.{step_down-Does}
use rdsctl.Raft.Snapshots.{Codec, maybe_snapshot}
use rdsctl.Raft.Snapshots.Cores.{maybe_snapshot-core}
use rdsctl.Raft.Handle.{handle}
use rdsctl.Raft.StepDown.{step_down}
use rdsctl.Raft.Replication.Leader.{append_local}
use rdsctl.Raft.Handle.Cores.{handle-Effect}
use rdsctl.Raft.Cluster.{
  Cluster, In, put_at, after, Reopened, Step, delivers, ticks, flushes, resigns, proposes,
  snapshots, restarts, Initial, Reach, begins, goes_on,
}
use rdsctl.Raft.Cluster.Ballots.{has, length-has, has-get}
use rdsctl.Raft.Cluster.Invariant.{History, Inv, extended, Delivered}
use rdsctl.Raft.Cluster.Invariant.Keeps.{call-Inv}

none-Delivered : (i : Text) (sent : List Outbound) → Delivered none i sent
none-Delivered i sent msg e = absurd cc

leads_active : (c : Core) → c.role ≡ leader → active c ≡ true
leads_active c e = ap (λ x. active (record c { role = x })) e

-- Two sets of voters, each of them a majority, have a name in common.
common_voter :
    (voters : List Text) (s u : NameSet)
    → IsSorted s
    → IsSorted u
    → ((v : Text) → Map.get v s ≡ some tt → mem v voters ≡ true)
    → ((v : Text) → Map.get v u ≡ some tt → mem v voters ≡ true)
    → majority_of voters ≤ length s
    → majority_of voters ≤ length u
    → (v : Text) × (Map.get v s ≡ some tt) × (Map.get v u ≡ some tt)
common_voter voters s u hs hu ps pu ms mu = named (
    both_hold (has s) (has u) voters
      (omega (arith, length-has voters s hs ps, length-has voters u hu pu)))
  where
    named :
        (v : Text) × (mem v voters ≡ true) × (has s v ≡ true) × (has u v ≡ true)
        → (v : Text) × (Map.get v s ≡ some tt) × (Map.get v u ≡ some tt)
    named (v, _, a, b) = (v, has-get s v a, has-get u v b)

module _ {Value : Type 0} (voters : List Text) where
  -- Some history of votes explains the state.
  abbrev pub Holds : Cluster Value → Type 1
  Holds s = (history : History) × Inv voters history (λ i. core (s.nodes i)) s.sent

  core-put_at :
      (i : Text) (n : Node Value) (f : Text → Node Value) (j : Text)
      → put_at i (core n) (λ k. core (f k)) j ≡ core (put_at i n f j)
  core-put_at i n f j = elim (Bool-cases (text_eq i j)) [ inl e ↦ rw e refl | inr e ↦ rw e refl ]

  after-Holds :
      (s : Cluster Value) (i : Text) (m : Option Message) (p : Node Value × List Outbound)
      → mem i voters ≡ true
      → Delivered m i s.sent
      → Effect m (core (s.nodes i)) (core p.0) p.1
      → Holds s
      → Holds (after i p s)
  after-Holds s i m p v d e (history, inv) = (
    extended history i p.0.hard,
    subst (λ f. Inv voters (extended history i p.0.hard) f (p.1 ++ s.sent))
        (fun_ext (core-put_at i p.0 s.nodes))
        (call-Inv voters history (λ k. core (s.nodes k)) s.sent inv i v m (core p.0) p.1 d e),
  )

  -- A call that leaves the core alone and sends nothing.
  same_core-Effect : (n n' : Node Value) → core n' ≡ core n → Effect none (core n) (core n') []
  same_core-Effect n n' e =
      subst (λ c. Effect none (core n) c []) (sym e) (quiet none (core n) [] tt)

  Reopened-Effect :
      (n n' : Node Value) → n.disk_hard ≡ n.hard → Reopened n n' → Effect none (core n) (core n') []
  Reopened-Effect n n' d r =
      falls none (core n) (core n') []
        (record {
          same_id = r.same_id;
          same_voters = r.same_voters;
          later = subst (Later n.hard) (sym (r.from_disk ∙ d)) (Later-refl n.hard);
          on_disk = λ _. r.same_disk ∙ sym r.from_disk;
        })
        (ap (λ x. active (record (core n') { role = x })) r.as_follower) tt

module _ {Value : Type 0} (codec : Codec Value) (voters : List Text) where
  Step-Holds : (s t : Cluster Value) → Step codec voters s t → Holds voters s → Holds voters t
  Step-Holds _ _ (delivers s from o env i v (a, w) b b') h =
      after-Holds voters s o.to (some o.msg) (handle codec from o.msg env (s.nodes o.to)) v
        (λ msg e. (o, i, refl, some_inj e))
        (handle-Effect codec from o.msg env (s.nodes o.to) a w b b') h
    where
      some_inj : {x y : Message} → some x ≡ some y → x ≡ y
      some_inj e = cc
  Step-Holds _ _ (ticks s i env v b) h =
      after-Holds voters s i none (tick env (s.nodes i)) v (none-Delivered i s.sent)
        (tick-Does env (s.nodes i) b) h
  Step-Holds _ _ (flushes s i env v) h =
      after-Holds voters s i none (flush env (s.nodes i)) v (none-Delivered i s.sent)
        (flush-Does env (s.nodes i)) h
  Step-Holds _ _ (resigns s i env v w) h =
      let p = step_down codec.of_op env (s.nodes i) in
      after-Holds voters s i none (p.0, outs_of p.1) v (none-Delivered i s.sent)
        (step_down-Does codec.of_op none env (s.nodes i) w.0) h
  Step-Holds _ _ (proposes s i op disk v) h =
      let n' = (append_local codec.of_op op disk (s.nodes i)).0 in
      after-Holds voters s i none (n', []) v (none-Delivered i s.sent)
        (same_core-Effect voters (s.nodes i) n' (append_local-core codec.of_op op disk (s.nodes i)))
        h
  Step-Holds _ _ (snapshots s i env v) h =
      let n' = (maybe_snapshot codec env (s.nodes i)).0 in
      after-Holds voters s i none (n', []) v (none-Delivered i s.sent)
        (same_core-Effect voters (s.nodes i) n' (maybe_snapshot-core codec env (s.nodes i))) h
  Step-Holds _ _ (restarts s i n' v r) h =
      after-Holds voters s i none (n', []) v (none-Delivered i s.sent)
        (Reopened-Effect voters (s.nodes i) n' (h.1.node_ok i).2 r) h

  Initial-Holds : (s : Cluster Value) → Initial codec voters s → Holds voters s
  Initial-Holds s h = (
    λ v t c. ⊥,
    record {
      node_ok = λ i. (
        h.named i,
        h.know_voters i,
        h.on_disk i,
        λ t w e. absurd e,
        λ a. absurd (
            false≢true (
              sym (ap (λ x. active (record (core (s.nodes i)) { role = x })) (h.all_followers i))
              ∙ a)),
      );
      unique = λ v t c d e. absurd e;
      granted = λ o r e. absurd (subst (In o) h.none_sent e);
      asked = λ o q e. absurd (subst (In o) h.none_sent e);
    },
  )

  Reach-Holds : (s : Cluster Value) → Reach codec voters s → Holds voters s
  Reach-Holds _ (begins s h) = Initial-Holds s h
  Reach-Holds _ (goes_on s t r k) = Step-Holds s t k (Reach-Holds s r)

  -- In every state that a cluster of voters reaches, two leaders of the same term are the same node.
  -- The writes of the hard state succeed and terms do not reach the bound of their type; messages may
  -- be lost, repeated and reordered, other writes may fail, and nodes may restart.
  pub election_safety :
      (s : Cluster Value) (i j : Text)
      → Reach codec voters s
      → (s.nodes i).role ≡ leader
      → (s.nodes j).role ≡ leader
      → (s.nodes i).hard.current_term ≡ (s.nodes j).hard.current_term
      → i ≡ j
  election_safety s i j r li lj same = same_backing (Reach-Holds s r)
    where
      same_backing : Holds voters s → i ≡ j
      same_backing (history, inv) =
          let a = (inv.node_ok i).4 (leads_active (core (s.nodes i)) li) in
          let b = (inv.node_ok j).4 (leads_active (core (s.nodes j)) lj) in
          let most =
            common_voter voters (core (s.nodes i)).votes (core (s.nodes j)).votes a.sorted b.sorted
              (λ v e. (a.earned v e).0) (λ v e. (b.earned v e).0) (a.majority_backs li)
              (b.majority_backs lj) in
          inv.unique most.0 (s.nodes j).hard.current_term i j
            (subst (λ t. history most.0 t i) same (a.earned most.0 most.1).1)
            (b.earned most.0 most.2).1
