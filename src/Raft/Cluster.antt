-- ===== src/Raft/Cluster.antt =====
-- src/ha/raft.rs: a cluster, with a network that may lose, repeat and reorder what was sent. The
-- writes of the hard state succeed, other writes may fail.
pub mod Invariant
pub mod Parts
pub mod Ballots
pub mod Elections
use rdsctl.Base.{
  if◌then◌else◌, u64_mod, Text, text_eq, ◌+◌, ◌<◌, ◌≡◌, ◌⊎◌, Bool, true, List, [], ◌∷◌, ◌++◌,
}
use rdsctl.State.{Op}
use rdsctl.Raft.{follower, Outbound, Node, synced, Env}
use rdsctl.Raft.Replication.Leader.{append_local}
use rdsctl.Raft.Drive.{tick, flush}
use rdsctl.Raft.Snapshots.{Codec, maybe_snapshot}
use rdsctl.Raft.Handle.{meet_term, handle}
use rdsctl.Raft.StepDown.{step_down}
use rdsctl.Raft.Config.{mem}
use rdsctl.Raft.Safety.{outs_of}

-- The nodes by their names, and all messages that were sent.
pub record Cluster (Value : Type 0) : Type 0 where
  pub nodes : Text → Node Value
  pub sent : List Outbound

abbrev pub In : Outbound → List Outbound → Type 0
In o [] = ⊥
In o (x ∷ xs) = (o ≡ x) ⊎ In o xs

abbrev pub put_at : {A : Type 0} → Text → A → (Text → A) → Text → A
put_at i x f j = if text_eq i j then x else f j

-- The cluster after a call at one node.
abbrev pub after :
    {Value : Type 0} → Text → Node Value × List Outbound → Cluster Value → Cluster Value
after i p s = record { nodes = put_at i p.0 s.nodes; sent = p.1 ++ s.sent }

-- The term does not reach the bound of its type.
abbrev pub Bounded : {Value : Type 0} → Node Value → Type 0
Bounded n = n.hard.current_term + 1 < u64_mod

abbrev pub DiskWorks : Env → Type 0
DiskWorks env = (env.adopt_write ≡ synced) × (env.vote_write ≡ synced)

-- A node opened from the disk of another: a follower with the hard state that was on the disk.
pub record Reopened {Value : Type 0} (n n' : Node Value) : Type 0 where
  pub same_id : n'.cfg.node_id ≡ n.cfg.node_id
  pub same_voters : n'.cfg.voters ≡ n.cfg.voters
  pub from_disk : n'.hard ≡ n.disk_hard
  pub same_disk : n'.disk_hard ≡ n.disk_hard
  pub as_follower : n'.role ≡ follower

module _ {Value : Type 0} (codec : Codec Value) (voters : List Text) where
  -- One call at one of the voters.
  pub data Step : Cluster Value → Cluster Value → Type 0 where
    delivers :
        (s : Cluster Value) (from : Text) (o : Outbound) (env : Env)
        → In o s.sent
        → mem o.to voters ≡ true
        → DiskWorks env
        → Bounded (s.nodes o.to)
        → Bounded (meet_term codec o.msg env (s.nodes o.to)).0
        → Step s (after o.to (handle codec from o.msg env (s.nodes o.to)) s)
    ticks :
        (s : Cluster Value) (i : Text) (env : Env)
        → mem i voters ≡ true
        → Bounded (s.nodes i)
        → Step s (after i (tick env (s.nodes i)) s)
    flushes :
        (s : Cluster Value) (i : Text) (env : Env)
        → mem i voters ≡ true
        → Step s (after i (flush env (s.nodes i)) s)
    resigns :
        (s : Cluster Value) (i : Text) (env : Env)
        → mem i voters ≡ true
        → DiskWorks env
        → Step s (
            after i
              (
                (step_down codec.of_op env (s.nodes i)).0,
                outs_of (step_down codec.of_op env (s.nodes i)).1,
              )
              s)
    proposes :
        (s : Cluster Value) (i : Text) (op : Op Value) (disk : Bool)
        → mem i voters ≡ true
        → Step s (after i ((append_local codec.of_op op disk (s.nodes i)).0, []) s)
    snapshots :
        (s : Cluster Value) (i : Text) (env : Env)
        → mem i voters ≡ true
        → Step s (after i ((maybe_snapshot codec env (s.nodes i)).0, []) s)
    restarts :
        (s : Cluster Value) (i : Text) (n' : Node Value)
        → mem i voters ≡ true
        → Reopened (s.nodes i) n'
        → Step s (after i (n', []) s)

  -- A new cluster: followers that know the voters, and no messages.
  pub record Initial (s : Cluster Value) : Type 0 where
    pub none_sent : s.sent ≡ []
    pub named : (i : Text) → (s.nodes i).cfg.node_id ≡ i
    pub know_voters : (i : Text) → (s.nodes i).cfg.voters ≡ voters
    pub on_disk : (i : Text) → (s.nodes i).disk_hard ≡ (s.nodes i).hard
    pub all_followers : (i : Text) → (s.nodes i).role ≡ follower

  pub data Reach : Cluster Value → Type 0 where
    begins : (s : Cluster Value) → Initial s → Reach s
    goes_on : (s t : Cluster Value) → Reach s → Step s t → Reach t
