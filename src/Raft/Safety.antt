-- ===== src/Raft/Safety.antt =====
-- src/ha/raft.rs: what a call does to the part of a node that elections depend on.
pub mod Quiet
use mathlib.Core.Bool.{false≢true}
use rdsctl.Base.{
  Bool-cases, length, All, Text, ℕ, ◌+◌, ◌/◌, ◌≤◌, ◌<◌, ◌≡◌, refl, sym, subst, ◌∙◌, ◌⊎◌, inl, inr,
  Bool, true, false, Option, some, List, [], ◌∷◌, arith, text_key,
}
use rdsctl.Base.Map
use rdsctl.Base.Map.{Map}
use rdsctl.Raft.{
  Role, follower, candidate, leader, Campaign, vote, VoteRequest, VoteResponse, Message,
  request_vote, request_vote_resp, append_entries, append_entries_resp, install_snapshot,
  install_snapshot_resp, timeout_now, Outbound, HardState, NameSet, Node,
}
use rdsctl.Errors.{Result, ok, err}
use rdsctl.Raft.Election.{Handled}
use rdsctl.Raft.Election.Moves.{Later, Later-refl, Later-trans}

-- The part of a node that elections depend on.
pub record Core : Type 0 where
  pub node_id : Text
  pub voters : List Text
  pub hard : HardState
  pub disk_hard : HardState
  pub role : Role
  pub campaign : Campaign
  pub votes : NameSet

abbrev pub core : {Value : Type 0} → Node Value → Core
core n = record {
  node_id = n.cfg.node_id;
  voters = n.cfg.voters;
  hard = n.hard;
  disk_hard = n.disk_hard;
  role = n.role;
  campaign = n.campaign;
  votes = n.votes;
}

abbrev standing : Role → Campaign → Bool
standing leader c = true
standing candidate vote = true
standing candidate _ = false
standing follower c = false

-- The node leads, or collects votes.
abbrev pub active : Core → Bool
active c = standing c.role c.campaign

-- What a node keeps in every call: its name, the voters, a disk that holds its hard state, and the
-- order of hard states.
pub record Onward (n n' : Core) : Type 0 where
  pub same_id : n'.node_id ≡ n.node_id
  pub same_voters : n'.voters ≡ n.voters
  pub later : Later n.hard n'.hard
  pub on_disk : n.disk_hard ≡ n.hard → n'.disk_hard ≡ n'.hard

abbrev pub majority_of : List Text → ℕ
majority_of vs = length vs / 2 + 1

pub record Counted (r : VoteResponse) (n n' : Core) : Type 0 where
  pub given : r.granted ≡ true
  pub this_term : r.term ≡ n.hard.current_term
  pub same_term : n'.hard.current_term ≡ n.hard.current_term
  pub was_active : active n ≡ true
  pub counted : n'.votes ≡ Map.insert r.voter tt n.votes
  pub elected : n'.role ≡ leader → majority_of n.voters ≤ length n'.votes

-- How a call can leave a node: out of the race, with its votes as they were, at the start of a
-- campaign, or with one more vote.
pub data Course (m : Option Message) (n n' : Core) : Type 0 where
  out_of_race : active n' ≡ false → Course m n n'
  unchanged :
      n'.hard.current_term ≡ n.hard.current_term
      → active n ≡ true
      → n'.votes ≡ n.votes
      → (n'.role ≡ leader → n.role ≡ leader)
      → Course m n n'
  stands :
      n.hard.current_term < n'.hard.current_term
      → n'.hard.voted_for ≡ some n'.node_id
      → n'.role ≡ candidate
      → n'.votes ≡ Map.insert n'.node_id tt []
      → Course m n n'
  gains : (r : VoteResponse) → m ≡ some (request_vote_resp r) → Counted r n n' → Course m n n'

-- An answer to a request for a pre-vote.
pub record PreVoted (m : Option Message) (to : Text) (term : ℕ) : Type 0 where
  pub request : VoteRequest
  pub asked : m ≡ some (request_vote request)
  pub pre : request.is_pre_vote ≡ true
  pub by_candidate : to ≡ request.candidate_id
  pub later_term : term < request.term

-- What a node may send: a granted vote is its own, and answers a pre-vote or stands in its hard state;
-- a request for a pre-vote is its own, for the next term, and it is out of the race.
abbrev pub Sends : Option Message → Core → Text → Message → Type 0
Sends m n to (request_vote_resp r) =
    r.granted ≡ true
    → (r.voter ≡ n.node_id)
      × (PreVoted m to r.term ⊎ ((n.hard.current_term ≡ r.term) × (n.hard.voted_for ≡ some to)))
Sends m n to (request_vote q) =
    q.is_pre_vote ≡ true
    → (q.candidate_id ≡ n.node_id) × (q.term ≡ n.hard.current_term + 1) × (active n ≡ false)
Sends m n to _ = Unit

abbrev pub AllSend : Option Message → Core → List Outbound → Type 0
AllSend m n = All (λ o. Sends m n o.to o.msg)

pub record Effect (m : Option Message) (n n' : Core) (outs : List Outbound) : Type 0 where
  pub onward : Onward n n'
  pub course : Course m n n'
  pub sends : AllSend m n' outs

pub Onward-refl : (n : Core) → Onward n n
Onward-refl n = record {
  same_id = refl;
  same_voters = refl;
  later = Later-refl n.hard;
  on_disk = λ e. e;
}

pub Onward-trans : (a b c : Core) → Onward a b → Onward b c → Onward a c
Onward-trans a b c h k = record {
  same_id = k.same_id ∙ h.same_id;
  same_voters = k.same_voters ∙ h.same_voters;
  later = Later-trans a.hard b.hard c.hard h.later k.later;
  on_disk = λ e. k.on_disk (h.on_disk e);
}

pub Course-refl : (m : Option Message) (n : Core) → Course m n n
Course-refl m n = elim (Bool-cases (active n)) [
  | inl e ↦ unchanged refl e refl (λ h. h)
  | inr e ↦ out_of_race e
]

-- A call that leaves the core alone, and sends what such a node may send.
pub quiet :
    (m : Option Message) (n : Core) (outs : List Outbound) → AllSend m n outs → Effect m n n outs
quiet m n outs s = record { onward = Onward-refl n; course = Course-refl m n; sends = s }

-- A call that takes the node out of the race.
pub falls :
    (m : Option Message) (n n' : Core) (outs : List Outbound)
    → Onward n n'
    → active n' ≡ false
    → AllSend m n' outs
    → Effect m n n' outs
falls m n n' outs h e s = record { onward = h; course = out_of_race e; sends = s }

pub term-Later : (a b : HardState) → Later a b → a.current_term ≤ b.current_term
term-Later a b (inl h) = omega arith
term-Later a b (inr h) = omega arith

Course-after :
    (m : Option Message) (a b c : Core)
    → Onward a b
    → active b ≡ false
    → Course m b c
    → Course m a c
Course-after m a b c h f (out_of_race e) = out_of_race e
Course-after m a b c h f (unchanged t e v l) = absurd (false≢true (sym f ∙ e))
Course-after m a b c h f (stands t v r w) =
    stands (omega (arith, term-Later a.hard b.hard h.later)) v r w
Course-after m a b c h f (gains r e k) = absurd (false≢true (sym f ∙ k.was_active))

-- A call behind one that took the node out of the race.
pub Effect-after :
    (m : Option Message) (a b c : Core) (outs : List Outbound)
    → Onward a b
    → active b ≡ false
    → Effect m b c outs
    → Effect m a c outs
Effect-after m a b c outs h f e = record {
  onward = Onward-trans a b c h e.onward;
  course = Course-after m a b c h f e.course;
  sends = e.sends;
}

-- A call that leaves the race as it was, within the term.
pub steady :
    (m : Option Message) (n n' : Core)
    → n'.hard.current_term ≡ n.hard.current_term
    → n'.role ≡ n.role
    → n'.campaign ≡ n.campaign
    → n'.votes ≡ n.votes
    → Course m n n'
steady m n n' t r c v = elim (Bool-cases (active n)) [
  | inl e ↦ unchanged t e v (λ l. sym r ∙ l)
  | inr e ↦ out_of_race (rw (r, c) e)
]

abbrev pub outs_of : Result (List Outbound) → List Outbound
outs_of (ok outs) = outs
outs_of (err e) = []

-- What a handler does, with the messages that it sends.
abbrev pub Does : {Value : Type 0} → Option Message → Node Value → Handled Value → Type 0
Does m n h = Effect m (core n) (core h.0) (outs_of h.1)

-- A message that any node may send.
abbrev pub IsFree : Message → Type 0
IsFree (request_vote_resp r) = r.granted ≡ false
IsFree (request_vote q) = q.is_pre_vote ≡ false
IsFree _ = Unit

pub IsFree-Sends :
    (m : Option Message) (n : Core) (to : Text) (msg : Message) → IsFree msg → Sends m n to msg
IsFree-Sends m n to (request_vote_resp r) h = λ g. absurd (false≢true (sym h ∙ g))
IsFree-Sends m n to (request_vote q) h = λ g. absurd (false≢true (sym h ∙ g))
IsFree-Sends m n to (append_entries a) h = tt
IsFree-Sends m n to (append_entries_resp a) h = tt
IsFree-Sends m n to (install_snapshot t w j) h = tt
IsFree-Sends m n to (install_snapshot_resp t w s i) h = tt
IsFree-Sends m n to (timeout_now t w) h = tt

-- All messages of a list are such.
abbrev pub AllFree : List Outbound → Type 0
AllFree = All (λ o. IsFree o.msg)

pub AllFree-AllSend :
    (m : Option Message) (n : Core) (os : List Outbound) → AllFree os → AllSend m n os
AllFree-AllSend m n [] h = tt
AllFree-AllSend m n (o ∷ os) h = (IsFree-Sends m n o.to o.msg h.0, AllFree-AllSend m n os h.1)

module _ {Value : Type 0} where
  -- A handler that leaves the core as it was.
  pub stays :
      (m : Option Message) (n : Node Value) (h : Handled Value)
      → core h.0 ≡ core n
      → AllSend m (core n) (outs_of h.1)
      → Does m n h
  stays m n h e s =
      subst (λ c. Effect m (core n) c (outs_of h.1)) (sym e) (quiet m (core n) (outs_of h.1) s)

  -- A handler that begins with a node of the same core.
  pub Does-from :
      (m : Option Message) (n o : Node Value) (h : Handled Value)
      → core o ≡ core n
      → Does m o h
      → Does m n h
  Does-from m n o h e d = subst (λ c. Effect m c (core h.0) (outs_of h.1)) e d

  pub sends_free :
      (m : Option Message) (n n' : Node Value) (outs : List Outbound)
      → core n' ≡ core n
      → AllFree outs
      → Does m n (n', ok outs)
  sends_free m n n' outs e free = stays m n (n', ok outs) e (AllFree-AllSend m (core n) outs free)
