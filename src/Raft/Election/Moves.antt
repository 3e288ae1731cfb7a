-- ===== src/Raft/Election/Moves.antt =====
-- src/ha/raft.rs: how votes and terms move the hard state, in memory and on the disk.
use rdsctl.Base.{
  ltb, Bool-cases, u64_mod, add64, add64_lem, Text, text_eq_iff, ℕ, ◌+◌, ◌<◌, ◌≡◌, refl, sym, ap,
  subst, ◌∙◌, ◌⊎◌, inl, inr, Bool, true, false, Option, none, some, arith, text_key,
}
use rdsctl.Errors.{ok}
use rdsctl.Raft.{VoteRequest, HardState, Node, Write, synced, failed, renamed, Env}
use rdsctl.Base.Map
use rdsctl.Raft.Timers.{reset_election_deadline}
use rdsctl.Raft.Skew.{push_sample, observe_clock}
use rdsctl.Raft.Election.{
  Handled, free_for, persist_hard_state, settle, settle_if, adopt_term, become_follower,
  start_election, log_is_up_to_date, grant_written, cast, may_vote, answer_vote,
  handle_request_vote, campaign_on, reply_vote, stand, started,
}

abbrev pub Kept : Option Text → Option Text → Type 0
Kept none o = Unit
Kept (some c) o = o ≡ some c

-- A later hard state: a greater term, or the same term with the vote, if one was given, unchanged.
abbrev pub Later : HardState → HardState → Type 0
Later a b =
    (a.current_term < b.current_term)
    ⊎ ((a.current_term ≡ b.current_term) × Kept a.voted_for b.voted_for)

pub Later-refl : (a : HardState) → Later a a
Later-refl a = inr (refl, same a.voted_for)
  where
    same : (o : Option Text) → Kept o o
    same none = tt
    same (some c) = refl

Kept-trans : (o p q : Option Text) → Kept o p → Kept p q → Kept o q
Kept-trans none p q h k = tt
Kept-trans (some c) p q h k = subst (λ x. Kept x q) h k

pub Later-trans : (a b c : HardState) → Later a b → Later b c → Later a c
Later-trans a b c (inl h) (inl k) = inl (omega arith)
Later-trans a b c (inl h) (inr k) = inl (omega arith)
Later-trans a b c (inr h) (inl k) = inl (omega arith)
Later-trans a b c (inr h) (inr k) =
    inr (h.0 ∙ k.0, Kept-trans a.voted_for b.voted_for c.voted_for h.1 k.1)

pub vote_Later :
    (h : HardState) (c : Text)
    → free_for h.voted_for c ≡ true
    → Later h (record h { voted_for = some c })
vote_Later h c free = inr (refl, free_kept h.voted_for free)
  where
    free_kept : (o : Option Text) → free_for o c ≡ true → Kept o (some c)
    free_kept none e = tt
    free_kept (some v) e = ap some (sym ((text_eq_iff v c).0 e))

module _ {Value : Type 0} where
  -- What a call does to the hard state: the one in memory moves on, and the disk keeps its own or
  -- takes the new one.
  pub record Moves (n n' : Node Value) : Type 0 where
    pub later : Later n.hard n'.hard
    pub on_disk : (n'.disk_hard ≡ n.disk_hard) ⊎ (n'.disk_hard ≡ n'.hard)

  observe_hard :
      (peer : Text) (sender_ms local_ms : ℕ) (n : Node Value)
      → ((observe_clock peer sender_ms local_ms n).hard ≡ n.hard)
        × ((observe_clock peer sender_ms local_ms n).disk_hard ≡ n.disk_hard)
  unfolding observe_clock push_sample
  observe_hard peer sender_ms local_ms n = ground arith

  persist_Moves :
      (w : Write) (n : Node Value) (h : HardState)
      → Later n.hard h
      → Moves n (persist_hard_state w (record n { hard = h })).0
  unfolding persist_hard_state
  persist_Moves synced n h l = record { later = l; on_disk = inr refl }
  persist_Moves failed n h l = record { later = l; on_disk = inl refl }
  persist_Moves renamed n h l = record { later = l; on_disk = inr refl }

  grant_written-hard :
      (m : VoteRequest) (now : ℕ) (p : Node Value × Bool)
      → ((grant_written m now p).0.hard ≡ p.0.hard)
        × ((grant_written m now p).0.disk_hard ≡ p.0.disk_hard)
  unfolding grant_written
  grant_written-hard m now (n, true) = (refl, refl)
  grant_written-hard m now (n, false) = (refl, refl)

  Moves-hard :
      (n a b : Node Value) → a.hard ≡ b.hard → a.disk_hard ≡ b.disk_hard → Moves n b → Moves n a
  Moves-hard n a b e d h = record {
    later = subst (Later n.hard) (sym e) h.later;
    on_disk = ground (arith, h.on_disk);
  }

  pub Moves-refl : (n : Node Value) → Moves n n
  Moves-refl n = record { later = Later-refl n.hard; on_disk = inl refl }

  pub answer_cases :
      (m : VoteRequest) (env : Env) (n : Node Value)
      → (answer_vote m env n ≡ (n, ok (reply_vote n m false env.now)))
        ⊎ ((may_vote m n ≡ true)
            × (answer_vote m env n
                ≡ grant_written m env.now
                    (persist_hard_state env.vote_write (cast m.candidate_id n))))
  unfolding answer_vote
  answer_cases m env n = elim (Bool-cases (ltb m.term n.hard.current_term)) [
    | inl e ↦ inl (rw e)
    | inr e ↦ elim (Bool-cases (may_vote m n)) [
      | inl v ↦ inr (v, rw (e, v))
      | inr v ↦ inl (rw (e, v))
    ]
  ]

  pub may_vote_free :
      (m : VoteRequest) (n : Node Value)
      → may_vote m n ≡ true
      → (m.term ≡ n.hard.current_term)
        × (free_for n.hard.voted_for m.candidate_id ≡ true)
        × (log_is_up_to_date n m.last_log_index m.last_log_term ≡ true)
  unfolding may_vote
  may_vote_free m n h = ground arith

  cast-Moves :
      (w : Write) (c : Text) (n : Node Value)
      → free_for n.hard.voted_for c ≡ true
      → Moves n (persist_hard_state w (cast c n)).0
  unfolding cast
  cast-Moves w c n free =
      persist_Moves w n (record n.hard { voted_for = some c }) (vote_Later n.hard c free)

  answer_vote-Moves :
      (m : VoteRequest) (env : Env) (n : Node Value) → Moves n (answer_vote m env n).0
  answer_vote-Moves m env n = elim (answer_cases m env n) [
    | inl e ↦ subst (λ (r : Handled Value). Moves n r.0) (sym e) (Moves-refl n)
    | inr (v, e) ↦
        let p = persist_hard_state env.vote_write (cast m.candidate_id n) in
        subst (λ (r : Handled Value). Moves n r.0) (sym e)
          (Moves-hard n (grant_written m env.now p).0 p.0 (grant_written-hard m env.now p).0
            (grant_written-hard m env.now p).1
            (cast-Moves env.vote_write m.candidate_id n (may_vote_free m n v).1))
  ]

  -- The node behind the observations that every request for a vote makes.
  abbrev pub observed : Text → VoteRequest → Env → Node Value → Node Value
  observed from m env n =
      observe_clock from m.sender_ms env.now
        (record n { peer_ack_ms = Map.insert from env.now n.peer_ack_ms })

  handle_pre :
      (from : Text) (m : VoteRequest) (env : Env) (n : Node Value)
      → m.is_pre_vote ≡ true
      → (handle_request_vote from m env n).0 ≡ observed from m env n
  unfolding handle_request_vote
  handle_pre from m env n e = rw e

  pub handle_vote :
      (from : Text) (m : VoteRequest) (env : Env) (n : Node Value)
      → m.is_pre_vote ≡ false
      → handle_request_vote from m env n ≡ answer_vote m env (observed from m env n)
  unfolding handle_request_vote
  handle_vote from m env n e = rw e

  pub observed-hard :
      (from : Text) (m : VoteRequest) (env : Env) (n : Node Value)
      → ((observed from m env n).hard ≡ n.hard) × ((observed from m env n).disk_hard ≡ n.disk_hard)
  observed-hard from m env n =
      observe_hard from m.sender_ms env.now
        (record n { peer_ack_ms = Map.insert from env.now n.peer_ack_ms })

  Moves-from :
      (n a b : Node Value) → a.hard ≡ n.hard → a.disk_hard ≡ n.disk_hard → Moves a b → Moves n b
  Moves-from n a b e d h = record {
    later = subst (λ x. Later x b.hard) e h.later;
    on_disk = ground (arith, h.on_disk);
  }

  pub handle_request_vote-Moves :
      (from : Text) (m : VoteRequest) (env : Env) (n : Node Value)
      → Moves n (handle_request_vote from m env n).0
  handle_request_vote-Moves from m env n =
      let o = observed from m env n in
      let eqs = observed-hard from m env n in
      Moves-from n o (handle_request_vote from m env n).0 eqs.0 eqs.1
        (elim (Bool-cases m.is_pre_vote) [
          | inl e ↦ subst (Moves o) (sym (handle_pre from m env n e)) (Moves-refl o)
          | inr e ↦
              subst (λ (r : Handled Value). Moves o r.0) (sym (handle_vote from m env n e))
                (answer_vote-Moves m env o)
        ])

  adopt_Moves :
      (term : ℕ) (w : Write) (n : Node Value)
      → n.hard.current_term < term
      → Moves n (persist_hard_state w (adopt_term term n)).0
  unfolding adopt_term
  adopt_Moves term w n h =
      persist_Moves w n (record { current_term = term; voted_for = none }) (inl h)

  settle_if-hard :
      (who : Option Text) (p : Node Value × Bool)
      → ((settle_if who p).0.hard ≡ p.0.hard) × ((settle_if who p).0.disk_hard ≡ p.0.disk_hard)
  unfolding settle_if settle
  settle_if-hard who (n, true) = (refl, refl)
  settle_if-hard who (n, false) = (refl, refl)

  settle_if-Moves :
      (who : Option Text) (n : Node Value) (p : Node Value × Bool)
      → Moves n p.0
      → Moves n (settle_if who p).0
  settle_if-Moves who n p h =
      Moves-hard n (settle_if who p).0 p.0 (settle_if-hard who p).0 (settle_if-hard who p).1 h

  pub become_cases :
      (term : ℕ) (who : Option Text) (w : Write) (n : Node Value)
      → (become_follower term who w n ≡ settle_if who (n, true))
        ⊎ ((n.hard.current_term < term)
            × (become_follower term who w n
                ≡ settle_if who (persist_hard_state w (adopt_term term n))))
  unfolding become_follower
  become_cases term who w n = elim (Bool-cases (ltb n.hard.current_term term)) [
    | inl e ↦ inr (grind arith, rw e)
    | inr e ↦ inl (rw e)
  ]

  pub become_follower-Moves :
      (term : ℕ) (who : Option Text) (w : Write) (n : Node Value)
      → Moves n (become_follower term who w n).0
  become_follower-Moves term who w n = elim (become_cases term who w n) [
    | inl e ↦
        subst (λ (p : Node Value × Bool). Moves n p.0) (sym e)
          (settle_if-Moves who n (n, true) (Moves-refl n))
    | inr (h, e) ↦
        subst (λ (p : Node Value × Bool). Moves n p.0) (sym e)
          (settle_if-Moves who n (persist_hard_state w (adopt_term term n))
            (adopt_Moves term w n h))
  ]

  started-hard :
      (now : ℕ) (p : Node Value × Bool)
      → ((started now p).0.hard ≡ p.0.hard) × ((started now p).0.disk_hard ≡ p.0.disk_hard)
  unfolding started campaign_on reset_election_deadline
  started-hard now (n, true) = (refl, refl)
  started-hard now (n, false) = (refl, refl)

  stand-Moves :
      (w : Write) (n : Node Value)
      → n.hard.current_term + 1 < u64_mod
      → Moves n (persist_hard_state w (stand n)).0
  unfolding stand
  stand-Moves w n bound =
      persist_Moves w n
        (record { current_term = add64 n.hard.current_term 1; voted_for = some n.cfg.node_id })
        (inl (
          subst (λ t. n.hard.current_term < t) (sym (add64_lem n.hard.current_term 1 bound))
            (omega arith)))

  pub start_election-Moves :
      (now : ℕ) (w : Write) (n : Node Value)
      → n.hard.current_term + 1 < u64_mod
      → Moves n (start_election now w n).0
  unfolding start_election
  start_election-Moves now w n bound =
      let p = persist_hard_state w (stand n) in
      Moves-hard n (started now p).0 p.0 (started-hard now p).0 (started-hard now p).1
        (stand-Moves w n bound)

  pub become_follower-log :
      (term : ℕ) (who : Option Text) (w : Write) (n : Node Value)
      → (become_follower term who w n).0.log ≡ n.log
  unfolding become_follower settle_if settle adopt_term persist_hard_state
  become_follower-log term who w n = ground arith
