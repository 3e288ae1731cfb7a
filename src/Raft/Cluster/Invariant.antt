-- ===== src/Raft/Cluster/Invariant.antt =====
-- src/ha/raft.rs: the invariant behind the safety of elections.
pub mod Keeps
use rdsctl.Base.{length, Text, ℕ, ◌+◌, ◌≤◌, ◌<◌, ◌≡◌, ◌⊎◌, true, Option, some, List, text_key}
use rdsctl.Base.Map
use rdsctl.Base.Map.{Map, IsSorted}
use rdsctl.Raft.{
  leader, VoteRequest, VoteResponse, Message, request_vote, request_vote_resp, Outbound, HardState,
}
use rdsctl.Raft.Config.{mem}
use rdsctl.Raft.Election.Moves.{Later}
use rdsctl.Raft.Safety.{Core, active, majority_of}
use rdsctl.Raft.Cluster.{In}

-- A history of votes: a voter gave its vote of a term to a candidate.
abbrev pub History : Type 1
History = Text → ℕ → Text → Type 0

abbrev pub ballot : ℕ → Text → HardState
ballot term c = record { current_term = term; voted_for = some c }

-- A request for a pre-vote of this candidate for a term past this one was sent.
pub record PreAsked (sent : List Outbound) (c : Text) (term : ℕ) : Type 0 where
  pub sending : Outbound
  pub request : VoteRequest
  pub was_sent : In sending sent
  pub is_request : sending.msg ≡ request_vote request
  pub pre : request.is_pre_vote ≡ true
  pub own : request.candidate_id ≡ c
  pub later_term : term < request.term

-- What a request for a pre-vote tells of its candidate now.
abbrev pub Overtaken : ℕ → Core → Type 0
Overtaken term c = (term ≤ c.hard.current_term + 1) × (active c ≡ true → term ≤ c.hard.current_term)

-- The votes of a node that leads or collects votes, and the majority of a leader.
pub record Backed (voters : List Text) (history : History) (i : Text) (c : Core) : Type 0 where
  pub sorted : IsSorted c.votes
  pub earned :
      (v : Text)
      → Map.get v c.votes ≡ some tt
      → (mem v voters ≡ true) × history v c.hard.current_term i
  pub majority_backs : c.role ≡ leader → majority_of voters ≤ length c.votes

abbrev pub NodeOk : List Text → History → Text → Core → Type 0
NodeOk voters history i c =
    (c.node_id ≡ i)
    × (c.voters ≡ voters)
    × (c.disk_hard ≡ c.hard)
    × ((t : ℕ) (w : Text) → history i t w → Later (ballot t w) c.hard)
    × (active c ≡ true → Backed voters history i c)

-- The nodes by what elections depend on, and all messages that were sent.
pub record Inv (voters : List Text) (history : History) (nodes : Text → Core) (sent : List Outbound)
    : Type 0 where
  pub node_ok : (i : Text) → NodeOk voters history i (nodes i)
  pub unique : (v : Text) (t : ℕ) (c d : Text) → history v t c → history v t d → c ≡ d
  pub granted :
      (o : Outbound) (r : VoteResponse)
      → In o sent
      → o.msg ≡ request_vote_resp r
      → r.granted ≡ true
      → (mem r.voter voters ≡ true) × (history r.voter r.term o.to ⊎ PreAsked sent o.to r.term)
  pub asked :
      (o : Outbound) (q : VoteRequest)
      → In o sent
      → o.msg ≡ request_vote q
      → q.is_pre_vote ≡ true
      → Overtaken q.term (nodes q.candidate_id)

-- The history after a call at one node, with the vote that its hard state holds then.
abbrev pub extended : History → Text → HardState → History
extended history i h v t c =
    history v t c ⊎ ((v ≡ i) × (h.current_term ≡ t) × (h.voted_for ≡ some c))

-- The message that a call is for was sent to its node.
abbrev pub Delivered : Option Message → Text → List Outbound → Type 0
Delivered m i sent =
    (msg : Message) → m ≡ some msg → (o : Outbound) × In o sent × (o.to ≡ i) × (o.msg ≡ msg)
