-- ===== src/Raft/Cluster/Invariant/Keeps.antt =====
-- src/ha/raft.rs: every call at a node keeps the invariant behind the safety of elections.
use mathlib.Core.Bool.{false≢true}
use rdsctl.Base.{
  length, Text, text_eq, text_eq_iff, ℕ, ◌+◌, ◌≤◌, ◌≡◌, refl, sym, ap, subst, ◌∙◌, ◌⊎◌, inl, inr,
  true, false, Option, some, List, [], ◌++◌, arith, text_key,
}
use rdsctl.Base.Map
use rdsctl.Base.Map.{Map, IsSorted}
use rdsctl.Raft.{
  candidate, leader, VoteRequest, VoteResponse, Message, request_vote, request_vote_resp, Outbound,
}
use rdsctl.Raft.Config.{mem}
use rdsctl.Raft.Election.Moves.{Later, Later-trans}
use rdsctl.Raft.Safety.{
  Core, active, majority_of, Counted, Course, out_of_race, unchanged, stands, gains, PreVoted,
  Sends, Effect, term-Later,
}
use rdsctl.Raft.Cluster.{In, put_at}
use rdsctl.Raft.Cluster.Parts.{
  put_at_self, put_at_lem, In-append, In-append_right, All-In, kept_vote, inserted, no_names,
  none_in,
}
use rdsctl.Raft.Cluster.Invariant.{
  History, ballot, PreAsked, Overtaken, Backed, NodeOk, Inv, extended, Delivered,
}

Overtaken-Effect :
    (t : ℕ) (m : Option Message) (c d : Core) (outs : List Outbound)
    → Effect m c d outs
    → Overtaken t c
    → Overtaken t d
Overtaken-Effect t m c d outs e h =
    (omega (arith, term-Later c.hard d.hard e.onward.later, h.0), in_race e.course)
  where
    in_race : Course m c d → active d ≡ true → t ≤ d.hard.current_term
    in_race (out_of_race f) a = absurd (false≢true (sym f ∙ a))
    in_race (unchanged s f v l) a = omega (arith, h.1 f)
    in_race (stands s v r w) a = omega (arith, h.0)
    in_race (gains r q k) a = omega (arith, h.1 k.was_active, k.same_term)

-- A call at a voter.
module _ (voters : List Text) (history : History) (nodes : Text → Core) (sent : List Outbound)
    (inv : Inv voters history nodes sent) (i : Text) (is_voter : mem i voters ≡ true)
    (m : Option Message) (n : Core) (outs : List Outbound) (from_sent : Delivered m i sent)
    (e : Effect m (nodes i) n outs) where
  abbrev votes_then : History
  votes_then = extended history i n.hard

  named : n.node_id ≡ i
  named = e.onward.same_id ∙ (inv.node_ok i).0

  ballots_kept : (t : ℕ) (w : Text) → votes_then i t w → Later (ballot t w) n.hard
  ballots_kept t w (inl h) =
      Later-trans (ballot t w) (nodes i).hard n.hard ((inv.node_ok i).3 t w h) e.onward.later
  ballots_kept t w (inr (_, s, v)) = inr (sym s, v)

  unique_then : (v : Text) (t : ℕ) (c d : Text) → votes_then v t c → votes_then v t d → c ≡ d
  unique_then v t c d (inl h) (inl k) = inv.unique v t c d h k
  unique_then v t c d h (inr (a, s, k)) =
      kept_vote t c d n.hard (ballots_kept t c (subst (λ x. votes_then x t c) a h)) s k
  unique_then v t c d (inr (a, s, k)) h =
      sym (kept_vote t d c n.hard (ballots_kept t d (subst (λ x. votes_then x t d) a h)) s k)

  PreAsked_then : (c : Text) (t : ℕ) → PreAsked sent c t → PreAsked (outs ++ sent) c t
  PreAsked_then c t p = record {
    sending = p.sending;
    request = p.request;
    was_sent = In-append_right p.sending outs sent p.was_sent;
    is_request = p.is_request;
    pre = p.pre;
    own = p.own;
    later_term = p.later_term;
  }

  -- What a pre-vote answers was sent.
  was_asked : (c : Text) (t : ℕ) → PreVoted m c t → PreAsked sent c t
  was_asked c t p = by_message (from_sent (request_vote p.request) p.asked)
    where
      by_message :
          (o : Outbound) × In o sent × (o.to ≡ i) × (o.msg ≡ request_vote p.request)
          → PreAsked sent c t
      by_message (o, h, _, q) = record {
        sending = o;
        request = p.request;
        was_sent = h;
        is_request = q;
        pre = p.pre;
        own = sym p.by_candidate;
        later_term = p.later_term;
      }

  granted_new :
      (o : Outbound) (r : VoteResponse)
      → Sends m n o.to (request_vote_resp r)
      → r.granted ≡ true
      → (mem r.voter voters ≡ true)
        × (votes_then r.voter r.term o.to ⊎ PreAsked (outs ++ sent) o.to r.term)
  granted_new o r h g =
      let own : r.voter ≡ i = (h g).0 ∙ named in
      (subst (λ v. mem v voters ≡ true) (sym own) is_voter, why own (h g).1)
    where
      why :
          r.voter ≡ i
          → PreVoted m o.to r.term
            ⊎ ((n.hard.current_term ≡ r.term) × (n.hard.voted_for ≡ some o.to))
          → votes_then r.voter r.term o.to ⊎ PreAsked (outs ++ sent) o.to r.term
      why own (inr (s, v)) = inl (inr (own, s, v))
      why own (inl p) = inr (PreAsked_then o.to r.term (was_asked o.to r.term p))

  granted_then :
      (o : Outbound) (r : VoteResponse)
      → In o (outs ++ sent)
      → o.msg ≡ request_vote_resp r
      → r.granted ≡ true
      → (mem r.voter voters ≡ true)
        × (votes_then r.voter r.term o.to ⊎ PreAsked (outs ++ sent) o.to r.term)
  granted_then o r h q g = elim (In-append o outs sent h) [
    | inl k ↦
        granted_new o r
          (subst (Sends m n o.to) q (All-In (λ x. Sends m n x.to x.msg) o outs e.sends k)) g
    | inr k ↦
        let old = inv.granted o r k q g in
        (old.0, elim old.1 [ inl v ↦ inl (inl v) | inr p ↦ inr (PreAsked_then o.to r.term p) ])
  ]

  asked_then :
      (o : Outbound) (q : VoteRequest)
      → In o (outs ++ sent)
      → o.msg ≡ request_vote q
      → q.is_pre_vote ≡ true
      → Overtaken q.term (put_at i n nodes q.candidate_id)
  asked_then o q h k p = elim (In-append o outs sent h) [
    | inl a ↦
        by_node (subst (Sends m n o.to) k (All-In (λ x. Sends m n x.to x.msg) o outs e.sends a) p)
    | inr a ↦
        put_at_lem (λ j c. q.candidate_id ≡ j → Overtaken q.term c) i n nodes
          (λ f.
            Overtaken-Effect q.term m (nodes i) n outs e
              (subst (λ j. Overtaken q.term (nodes j)) f (inv.asked o q a k p)))
          (λ j _ f. subst (λ x. Overtaken q.term (nodes x)) f (inv.asked o q a k p)) q.candidate_id
          refl
  ]
    where
      by_node :
          (q.candidate_id ≡ n.node_id) × (q.term ≡ n.hard.current_term + 1) × (active n ≡ false)
          → Overtaken q.term (put_at i n nodes q.candidate_id)
      by_node (c, t, f) =
          subst (Overtaken q.term)
            (sym (put_at_self i n nodes) ∙ ap (put_at i n nodes) (sym (c ∙ named)))
            (omega arith, λ a. absurd (false≢true (sym f ∙ a)))

  old_votes : active (nodes i) ≡ true → Backed voters history i (nodes i)
  old_votes = (inv.node_ok i).4

  Backed-unchanged :
      n.hard.current_term ≡ (nodes i).hard.current_term
      → active (nodes i) ≡ true
      → n.votes ≡ (nodes i).votes
      → (n.role ≡ leader → (nodes i).role ≡ leader)
      → Backed voters votes_then i n
  Backed-unchanged s a v l =
      let b = old_votes a in
      record {
        sorted = subst IsSorted (sym v) b.sorted;
        earned = λ w h.
            let k = b.earned w (ap (Map.get w) (sym v) ∙ h) in
            (k.0, inl (subst (λ t. history w t i) (sym s) k.1));
        majority_backs =
            λ h. subst (λ x. majority_of voters ≤ length x) (sym v) (b.majority_backs (l h));
      }

  Backed-stands :
      n.hard.voted_for ≡ some n.node_id
      → n.role ≡ candidate
      → n.votes ≡ Map.insert n.node_id tt []
      → Backed voters votes_then i n
  Backed-stands v r w = record {
    sorted = subst IsSorted (sym w) (Map.insert-IsSorted n.node_id tt [] tt);
    earned = λ u h.
        let own : u ≡ i = only_own u (ap (Map.get u) (sym w) ∙ h) in
        (subst (λ x. mem x voters ≡ true) (sym own) is_voter, inr (own, refl, v ∙ ap some named));
    majority_backs = λ h. absurd (candidate_leads (sym r ∙ h));
  }
    where
      candidate_leads : candidate ≡ leader → ⊥
      candidate_leads e = cc

      only_own : (u : Text) → Map.get u (Map.insert n.node_id tt no_names) ≡ some tt → u ≡ i
      only_own u h = elim (inserted n.node_id u no_names h) [
        | inl q ↦ sym q ∙ named
        | inr q ↦ absurd (none_in u q)
      ]

  -- A vote that a node collects was given to it in its term.
  vote_counts :
      (r : VoteResponse)
      → m ≡ some (request_vote_resp r)
      → Counted r (nodes i) n
      → (mem r.voter voters ≡ true) × history r.voter (nodes i).hard.current_term i
  vote_counts r q k = by_message (from_sent (request_vote_resp r) q)
    where
      no_pre_vote : PreAsked sent i r.term → ⊥
      no_pre_vote p =
          let over =
            subst (λ j. Overtaken p.request.term (nodes j)) p.own
              (inv.asked p.sending p.request p.was_sent p.is_request p.pre) in
          omega (arith, over.1 k.was_active, p.later_term, k.this_term)

      by_message :
          (o : Outbound) × In o sent × (o.to ≡ i) × (o.msg ≡ request_vote_resp r)
          → (mem r.voter voters ≡ true) × history r.voter (nodes i).hard.current_term i
      by_message (o, h, t, w) =
          let g = inv.granted o r h w k.given in
          (
            g.0,
            elim g.1 [
              | inl v ↦
                  subst (λ x. history r.voter x i) k.this_term (subst (history r.voter r.term) t v)
              | inr p ↦ absurd (no_pre_vote (subst (λ x. PreAsked sent x r.term) t p))
            ],
          )

  Backed-gains :
      (r : VoteResponse)
      → m ≡ some (request_vote_resp r)
      → Counted r (nodes i) n
      → Backed voters votes_then i n
  Backed-gains r q k =
      let b = old_votes k.was_active in
      record {
        sorted =
            subst IsSorted (sym k.counted)
              (Map.insert-IsSorted r.voter tt (nodes i).votes b.sorted);
        earned = λ u h.
            let v =
              earned_then b u
                (inserted r.voter u (nodes i).votes (ap (Map.get u) (sym k.counted) ∙ h)) in
            (v.0, inl (subst (λ t. history u t i) (sym k.same_term) v.1));
        majority_backs =
            λ h. subst (λ vs. majority_of vs ≤ length n.votes) (inv.node_ok i).1 (k.elected h);
      }
    where
      earned_then :
          Backed voters history i (nodes i)
          → (u : Text) → (r.voter ≡ u) ⊎ (Map.get u (nodes i).votes ≡ some tt)
          → (mem u voters ≡ true) × history u (nodes i).hard.current_term i
      earned_then b u (inr h) = b.earned u h
      earned_then b u (inl e) =
          subst (λ x. (mem x voters ≡ true) × history x (nodes i).hard.current_term i) e
            (vote_counts r q k)

  Backed-Course : Course m (nodes i) n → active n ≡ true → Backed voters votes_then i n
  Backed-Course (out_of_race f) a = absurd (false≢true (sym f ∙ a))
  Backed-Course (unchanged s f v l) a = Backed-unchanged s f v l
  Backed-Course (stands s v r w) a = Backed-stands v r w
  Backed-Course (gains r q k) a = Backed-gains r q k

  NodeOk-other : (j : Text) → text_eq i j ≡ false → NodeOk voters votes_then j (nodes j)
  NodeOk-other j f =
      let (a, b, c, d, backed) = inv.node_ok j in
      (
        a,
        b,
        c,
        λ t w h. elim h [
          | inl k ↦ d t w k
          | inr k ↦ absurd (false≢true (sym f ∙ (text_eq_iff i j).1 (sym k.0)))
        ],
        λ l.
            let o = backed l in
            record {
              sorted = o.sorted;
              earned = λ u h. ((o.earned u h).0, inl (o.earned u h).1);
              majority_backs = o.majority_backs;
            },
      )

  -- The invariant holds behind the call, with the vote that the node then holds in the history.
  pub call-Inv : Inv voters votes_then (put_at i n nodes) (outs ++ sent)
  call-Inv = record {
    node_ok =
        put_at_lem (NodeOk voters votes_then) i n nodes
          (
            named,
            e.onward.same_voters ∙ (inv.node_ok i).1,
            e.onward.on_disk (inv.node_ok i).2,
            ballots_kept,
            Backed-Course e.course,
          )
          NodeOk-other;
    unique = unique_then;
    granted = granted_then;
    asked = asked_then;
  }
