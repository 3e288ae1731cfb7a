-- ===== src/Raft/Election/Cores.antt =====
-- src/ha/raft.rs: campaigns and votes, and what elections depend on.
use mathlib.Core.Bool.{false≢true}
use rdsctl.Base.{
  Bool-cases, u64_mod, add64_lem, Text, ℕ, ◌+◌, ◌<◌, ◌≡◌, refl, sym, subst, ◌≢◌, inl, inr, Bool,
  true, false, Option, some, [], arith, text_key,
}
use rdsctl.Base.Map
use rdsctl.Base.Map.{Map}
use rdsctl.Errors.{ok}
use rdsctl.Raft.{
  Role, follower, candidate, leader, pre_vote, VoteRequest, Message, request_vote, Node, Write,
  synced, Env,
}
use rdsctl.Raft.Timers.{reset_election_deadline}
use rdsctl.Raft.Election.{
  free_for, persist_hard_state, settle, settle_if, adopt_term, become_follower, pre_vote_as,
  start_pre_vote, start_election, grant_written, cast, answer_vote, handle_request_vote,
  answer_pre_vote, campaign_on, reply_vote, stand, started,
}
use rdsctl.Raft.Election.Moves.{
  Later-refl, vote_Later, answer_cases, may_vote_free, observed, handle_vote, become_cases,
}
use rdsctl.Raft.Safety.{core, active, Onward, stands, quiet, steady, Does, Does-from}
use rdsctl.Raft.Safety.Quiet.{observe_clock-core, send_to_others-AllSend}

-- A node that took itself out of the race, with its hard state written.
pub record Fallen {Value : Type 0} (n : Node Value) (p : Node Value × Bool) : Type 0 where
  pub kept : p.1 ≡ true
  pub onward : Onward (core n) (core p.0)
  pub out : active (core p.0) ≡ false

module _ {Value : Type 0} where
  settled-Fallen : (who : Option Text) (n : Node Value) → Fallen n (settle_if who (n, true))
  unfolding settle_if settle
  settled-Fallen who n = record {
    kept = refl;
    onward = record {
      same_id = refl;
      same_voters = refl;
      later = Later-refl n.hard;
      on_disk = λ e. e;
    };
    out = refl;
  }

  adopted-Fallen :
      (term : ℕ) (who : Option Text) (n : Node Value)
      → n.hard.current_term < term
      → Fallen n (settle_if who (persist_hard_state synced (adopt_term term n)))
  unfolding settle_if settle persist_hard_state adopt_term
  adopted-Fallen term who n h = record {
    kept = refl;
    onward = record { same_id = refl; same_voters = refl; later = inl h; on_disk = λ e. refl };
    out = refl;
  }

  pub become_follower-Fallen :
      (term : ℕ) (who : Option Text) (n : Node Value) → Fallen n (become_follower term who synced n)
  become_follower-Fallen term who n = elim (become_cases term who synced n) [
    | inl e ↦ subst (Fallen n) (sym e) (settled-Fallen who n)
    | inr (h, e) ↦ subst (Fallen n) (sym e) (adopted-Fallen term who n h)
  ]

  -- The answer to a pre-vote.
  answer_pre_vote-Does :
      (q : VoteRequest) (now : ℕ) (n : Node Value)
      → q.is_pre_vote ≡ true
      → Does (some (request_vote q)) n (answer_pre_vote q now n)
  unfolding answer_pre_vote
  answer_pre_vote-Does q now n pre = quiet (some (request_vote q)) (core n) _ (
    (λ g. (
      refl,
      inl (record {
        request = q;
        asked = refl;
        pre = pre;
        by_candidate = refl;
        later_term = ground arith;
      }),
    )),
    tt,
  )

  refusal-Does :
      (m : Option Message) (q : VoteRequest) (now : ℕ) (n : Node Value)
      → Does m n (n, ok (reply_vote n q false now))
  refusal-Does m q now n = quiet m (core n) _ ((λ g. absurd (false≢true g)), tt)

  granted-Does :
      (q : VoteRequest) (now : ℕ) (n : Node Value)
      → q.term ≡ n.hard.current_term
      → free_for n.hard.voted_for q.candidate_id ≡ true
      → Does
          (some (request_vote q))
          n
          (grant_written q now (persist_hard_state synced (cast q.candidate_id n)))
  unfolding grant_written persist_hard_state cast reset_election_deadline
  granted-Does q now n e free = record {
    onward = record {
      same_id = refl;
      same_voters = refl;
      later = vote_Later n.hard q.candidate_id free;
      on_disk = λ x. refl;
    };
    course = steady (some (request_vote q)) (core n) _ refl refl refl refl;
    sends = ((λ g. (refl, inr (refl, refl))), tt);
  }

  answer_vote-Does :
      (q : VoteRequest) (env : Env) (n : Node Value)
      → env.vote_write ≡ synced
      → Does (some (request_vote q)) n (answer_vote q env n)
  answer_vote-Does q env n w = elim (answer_cases q env n) [
    | inl e ↦
        subst (Does (some (request_vote q)) n) (sym e)
          (refusal-Does (some (request_vote q)) q env.now n)
    | inr (v, e) ↦ subst (Does (some (request_vote q)) n) (sym e) (
        subst
          (λ x.
            Does (some (request_vote q)) n
              (grant_written q env.now (persist_hard_state x (cast q.candidate_id n))))
          (sym w) (granted-Does q env.now n (may_vote_free q n v).0 (may_vote_free q n v).1))
  ]

  observed-core :
      (from : Text) (q : VoteRequest) (env : Env) (n : Node Value)
      → core (observed from q env n) ≡ core n
  observed-core from q env n =
      observe_clock-core from q.sender_ms env.now
        (record n { peer_ack_ms = Map.insert from env.now n.peer_ack_ms })

  handle_pre_lem :
      (from : Text) (q : VoteRequest) (env : Env) (n : Node Value)
      → q.is_pre_vote ≡ true
      → handle_request_vote from q env n ≡ answer_pre_vote q env.now (observed from q env n)
  unfolding handle_request_vote
  handle_pre_lem from q env n e = rw e refl

  pub handle_request_vote-Does :
      (from : Text) (q : VoteRequest) (env : Env) (n : Node Value)
      → env.vote_write ≡ synced
      → Does (some (request_vote q)) n (handle_request_vote from q env n)
  handle_request_vote-Does from q env n w =
      let o = observed from q env n in
      let msg = some (request_vote q) in
      Does-from msg n o (handle_request_vote from q env n) (observed-core from q env n)
        (elim (Bool-cases q.is_pre_vote) [
          | inl e ↦
              subst (Does msg o) (sym (handle_pre_lem from q env n e))
                (answer_pre_vote-Does q env.now o e)
          | inr e ↦
              subst (Does msg o) (sym (handle_vote from q env n e)) (answer_vote-Does q env o w)
        ])

  started-Does :
      (m : Option Message) (now : ℕ) (n : Node Value)
      → n.hard.current_term + 1 < u64_mod
      → Does m n (start_election now synced n)
  unfolding start_election started campaign_on persist_hard_state stand reset_election_deadline
  started-Does m now n bound =
      let e = add64_lem n.hard.current_term 1 bound in
      record {
        onward = record {
          same_id = refl;
          same_voters = refl;
          later = inl (subst (λ t. n.hard.current_term < t) (sym e) (omega arith));
          on_disk = λ x. refl;
        };
        course = stands (subst (λ t. n.hard.current_term < t) (sym e) (omega arith)) refl refl refl;
        sends =
            send_to_others-AllSend m (core (start_election now synced n).0)
              (campaign_on now (record (stand n) { disk_hard = (stand n).hard })) _
              (λ to g. absurd (false≢true g));
      }

  -- A campaign.
  pub start_election-Does :
      (m : Option Message) (now : ℕ) (w : Write) (n : Node Value)
      → w ≡ synced
      → n.hard.current_term + 1 < u64_mod
      → Does m n (start_election now w n)
  start_election-Does m now w n e bound =
      subst (λ x. Does m n (start_election now x n)) (sym e) (started-Does m now n bound)

  -- A node that does not lead and asks for pre-votes.
  pre_vote_as-core :
      (r : Role) (now : ℕ) (n : Node Value)
      → r ≢ leader
      → core (pre_vote_as r now n)
        ≡ record (core n) { role = candidate; campaign = pre_vote; votes = [] }
  unfolding pre_vote_as reset_election_deadline
  pre_vote_as-core leader now n f = absurd (f refl)
  pre_vote_as-core follower now n f = refl
  pre_vote_as-core candidate now n f = refl

  pub start_pre_vote-core :
      (now : ℕ) (n : Node Value)
      → n.role ≢ leader
      → core (start_pre_vote now n)
        ≡ record (core n) { role = candidate; campaign = pre_vote; votes = [] }
  unfolding start_pre_vote
  start_pre_vote-core now n f = pre_vote_as-core n.role now n f
