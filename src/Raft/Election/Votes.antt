-- ===== src/Raft/Election/Votes.antt =====
-- src/ha/raft.rs: one vote in each term, on the disk before it is answered, across restarts.
use mathlib.Core.Bool.{false≢true}
use rdsctl.Base.{
  u64_mod, Text, text_eq_iff, ℕ, ◌+◌, ◌<◌, ◌≡◌, refl, sym, ap, subst, ◌∙◌, inl, inr, Bool, true,
  false, Option, some, List, [], ◌∷◌, arith,
}
use rdsctl.Errors.{Result, ok, err}
use rdsctl.Raft.{
  VoteRequest, Message, request_vote_resp, Outbound, HardState, Node, Write, synced, failed,
  renamed, Env,
}
use rdsctl.Raft.Election.{
  Handled, free_for, persist_hard_state, become_follower, start_election, log_is_up_to_date,
  grant_written, cast, answer_vote, handle_request_vote,
}
use rdsctl.Raft.Skew.{push_sample, observe_clock}
use rdsctl.Raft.Election.Moves.{
  Later, Later-refl, Later-trans, Moves, answer_cases, may_vote_free, observed, handle_vote,
  observed-hard, handle_request_vote-Moves, become_follower-Moves, start_election-Moves,
}
use rdsctl.Raft.Timers.{reset_election_deadline}

abbrev grants : Message → Bool
grants (request_vote_resp m) = m.granted
grants _ = false

-- Whether the outcome of a request for a vote is an answer that grants it.
abbrev pub gives_vote : Result (List Outbound) → Bool
gives_vote (err e) = false
gives_vote (ok []) = false
gives_vote (ok (o ∷ os)) = grants o.msg

-- The hard state behind a vote.
abbrev pub voted : VoteRequest → HardState
voted m = record { current_term = m.term; voted_for = some m.candidate_id }

again_same :
    (m m' : VoteRequest) (h : HardState)
    → Later (voted m) h
    → m'.term ≡ h.current_term
    → m'.term ≡ m.term
    → free_for h.voted_for m'.candidate_id ≡ true
    → m'.candidate_id ≡ m.candidate_id
again_same m m' h (inl l) e t f = absurd (omega arith)
again_same m m' h (inr (t, k)) e s f = sym (
    (text_eq_iff m.candidate_id m'.candidate_id).0
      (subst (λ o. free_for o m'.candidate_id ≡ true) k f))

module _ {Value : Type 0} where
  -- What a vote that was given tells of the node before and after.
  pub record Granted (m : VoteRequest) (n n' : Node Value) : Type 0 where
    pub same_term : m.term ≡ n.hard.current_term
    pub was_free : free_for n.hard.voted_for m.candidate_id ≡ true
    pub up_to_date : log_is_up_to_date n m.last_log_index m.last_log_term ≡ true
    pub in_memory : n'.hard ≡ voted m
    pub durable : n'.disk_hard ≡ voted m

  written_grant :
      (w : Write) (m : VoteRequest) (now : ℕ) (n : Node Value)
      → gives_vote (grant_written m now (persist_hard_state w (cast m.candidate_id n))).1 ≡ true
      → let n' = (grant_written m now (persist_hard_state w (cast m.candidate_id n))).0 in
        (n'.hard ≡ record n.hard { voted_for = some m.candidate_id })
        × (n'.disk_hard ≡ record n.hard { voted_for = some m.candidate_id })
  unfolding persist_hard_state grant_written cast reset_election_deadline
  written_grant synced m now n g = (refl, refl)
  written_grant failed m now n g = absurd (false≢true g)
  written_grant renamed m now n g = absurd (false≢true g)

  answer-Granted :
      (m : VoteRequest) (env : Env) (n : Node Value)
      → gives_vote (answer_vote m env n).1 ≡ true
      → Granted m n (answer_vote m env n).0
  answer-Granted m env n g = elim (answer_cases m env n) [
    | inl e ↦ absurd (false≢true (subst (λ (r : Handled Value). gives_vote r.1 ≡ true) e g))
    | inr (v, e) ↦
        let free = may_vote_free m n v in
        let w =
          written_grant env.vote_write m env.now n
            (subst (λ (r : Handled Value). gives_vote r.1 ≡ true) e g) in
        subst (λ (r : Handled Value). Granted m n r.0) (sym e)
          (record {
            same_term = free.0;
            was_free = free.1;
            up_to_date = free.2;
            in_memory =
                w.0
                ∙ ap (λ t. record { current_term = t; voted_for = some m.candidate_id })
                    (sym free.0);
            durable =
                w.1
                ∙ ap (λ t. record { current_term = t; voted_for = some m.candidate_id })
                    (sym free.0);
          })
  ]

  observed_log :
      (from : Text) (m : VoteRequest) (env : Env) (n : Node Value)
      → (observed from m env n).log ≡ n.log
  unfolding observe_clock push_sample
  observed_log from m env n = ground arith

  up_to_date-log :
      (a b : Node Value) (i t : ℕ)
      → a.log ≡ b.log
      → log_is_up_to_date a i t ≡ log_is_up_to_date b i t
  unfolding log_is_up_to_date
  up_to_date-log a b i t e = rw e

  Granted-observed :
      (from : Text) (m : VoteRequest) (env : Env) (n n' : Node Value)
      → Granted m (observed from m env n) n'
      → Granted m n n'
  Granted-observed from m env n n' g =
      let o = observed from m env n in
      let e = (observed-hard from m env n).0 in
      record {
        same_term = subst (λ h. m.term ≡ h.current_term) e g.same_term;
        was_free = subst (λ h. free_for h.voted_for m.candidate_id ≡ true) e g.was_free;
        up_to_date =
            sym (up_to_date-log o n m.last_log_index m.last_log_term (observed_log from m env n))
            ∙ g.up_to_date;
        in_memory = g.in_memory;
        durable = g.durable;
      }

  -- A request for a vote, not a pre-vote, that is answered with a grant came in the node's own term,
  -- found the vote free or already the candidate's and the candidate's log not behind the node's, and
  -- left the vote for that candidate in memory and on the disk.
  pub vote_is_durable :
      (from : Text) (m : VoteRequest) (env : Env) (n : Node Value)
      → m.is_pre_vote ≡ false
      → gives_vote (handle_request_vote from m env n).1 ≡ true
      → Granted m n (handle_request_vote from m env n).0
  vote_is_durable from m env n e g =
      Granted-observed from m env n (handle_request_vote from m env n).0 (
        subst (λ (r : Handled Value). Granted m (observed from m env n) r.0)
          (sym (handle_vote from m env n e))
          (answer-Granted m env (observed from m env n)
            (subst (λ (r : Handled Value). gives_vote r.1 ≡ true) (handle_vote from m env n e) g)))

  -- What can happen to a node between two votes: requests, a change to a greater term, its own
  -- campaign, anything that leaves the hard states alone, and a restart from the disk.
  pub data Step : Node Value → Node Value → Type 0 where
    asked :
        (from : Text) (m : VoteRequest) (env : Env) (n : Node Value)
        → Step n (handle_request_vote from m env n).0
    adopted :
        (term : ℕ) (who : Option Text) (w : Write) (n : Node Value)
        → Step n (become_follower term who w n).0
    campaigned :
        (now : ℕ) (w : Write) (n : Node Value)
        → n.hard.current_term + 1 < u64_mod
        → Step n (start_election now w n).0
    elsewhere : (n n' : Node Value) → n'.hard ≡ n.hard → n'.disk_hard ≡ n.disk_hard → Step n n'
    restarted : (n n' : Node Value) → n'.hard ≡ n.disk_hard → n'.disk_hard ≡ n.disk_hard → Step n n'

  pub data Steps : Node Value → Node Value → Type 0 where
    stay : (n : Node Value) → Steps n n
    more : (a b c : Node Value) → Step a b → Steps b c → Steps a c

  -- Both hard states are later than this one.
  abbrev Above : HardState → Node Value → Type 0
  Above h n = Later h n.hard × Later h n.disk_hard

  Moves-Above : (h : HardState) (n n' : Node Value) → Moves n n' → Above h n → Above h n'
  Moves-Above h n n' m (a, d) =
      let l = Later-trans h n.hard n'.hard a m.later in
      (l, elim m.on_disk [ inl e ↦ subst (Later h) (sym e) d | inr e ↦ subst (Later h) (sym e) l ])

  Step-Above : (h : HardState) (n n' : Node Value) → Step n n' → Above h n → Above h n'
  Step-Above h _ _ (asked from m env n) a =
      Moves-Above h n (handle_request_vote from m env n).0 (handle_request_vote-Moves from m env n)
        a
  Step-Above h _ _ (adopted term who w n) a =
      Moves-Above h n (become_follower term who w n).0 (become_follower-Moves term who w n) a
  Step-Above h _ _ (campaigned now w n bound) a =
      Moves-Above h n (start_election now w n).0 (start_election-Moves now w n bound) a
  Step-Above h _ _ (elsewhere n n' e d) a =
      (subst (Later h) (sym e) a.0, subst (Later h) (sym d) a.1)
  Step-Above h _ _ (restarted n n' e d) a =
      (subst (Later h) (sym e) a.1, subst (Later h) (sym d) a.1)

  Steps-Above : (h : HardState) (n n' : Node Value) → Steps n n' → Above h n → Above h n'
  Steps-Above h n n' (stay _) a = a
  Steps-Above h n n' (more _ b _ s ss) a = Steps-Above h b n' ss (Step-Above h n b s a)

  -- Two requests for votes, not pre-votes, in the same term that a node grants name the same
  -- candidate, whatever steps lie between them: further requests, changes to a greater term, campaigns
  -- whose term does not wrap around, steps that leave the hard states alone, and restarts from the disk.
  pub one_vote_per_term :
      (from from' : Text) (m m' : VoteRequest) (env env' : Env) (n later_n : Node Value)
      → m.is_pre_vote ≡ false
      → gives_vote (handle_request_vote from m env n).1 ≡ true
      → Steps (handle_request_vote from m env n).0 later_n
      → m'.is_pre_vote ≡ false
      → gives_vote (handle_request_vote from' m' env' later_n).1 ≡ true
      → m'.term ≡ m.term
      → m'.candidate_id ≡ m.candidate_id
  one_vote_per_term from from' m m' env env' n later_n p g steps p' g' same =
      let first = vote_is_durable from m env n p g in
      let second = vote_is_durable from' m' env' later_n p' g' in
      let n' = (handle_request_vote from m env n).0 in
      let above = Steps-Above (voted m) n' later_n steps (
        subst (Later (voted m)) (sym first.in_memory) (Later-refl (voted m)),
        subst (Later (voted m)) (sym first.durable) (Later-refl (voted m)),
      ) in
      again_same m m' later_n.hard above.0 second.same_term same second.was_free
