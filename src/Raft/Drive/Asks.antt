-- ===== src/Raft/Drive/Asks.antt =====
-- src/ha/raft.rs: a tick behind the election deadline.
use rdsctl.Base.{
  leb, Bool-cases, keep_if, add64, Text, text_eq, text_eq_iff, ℕ, ◌≤◌, ◌≡◌, refl, sym, ap, ◌∙◌, ◌≢◌,
  inl, inr, Bool, true, false, not, List, [], ◌∷◌, map, arith,
}
use rdsctl.Raft.{Role, follower, candidate, leader, Message, Outbound, Node, Env}
use rdsctl.Raft.Config.{others, mem}
use rdsctl.Raft.Timers.{reset_election_deadline}
use rdsctl.Raft.Election.{pre_vote_as, start_pre_vote, send_to_others, request_of}
use rdsctl.Raft.Drive.{wait_tick, tick}
use rdsctl.Raft.Cluster.{In}

-- The request for a pre-vote to a voter, for the next term.
abbrev pub pre_vote_request : {Value : Type 0} → Node Value → ℕ → Text → Outbound
pre_vote_request n now v = record {
  to = v;
  msg = request_of n (add64 n.hard.current_term 1) true now;
  critical = true;
}

In-each :
    (msg : Message) (v : Text) (test : Text → Bool) (vs : List Text)
    → mem v vs ≡ true
    → test v ≡ true
    → In
        (record { to = v; msg = msg; critical = true })
        (map (λ w. record { to = w; msg = msg; critical = true }) (keep_if test vs))
In-each msg v test [] m t = absurd cc
In-each msg v test (w ∷ vs) m t = elim (Bool-cases (text_eq w v)) [
  | inl e ↦
      let same : w ≡ v = (text_eq_iff w v).0 e in
      let passes : test w ≡ true = ap test same ∙ t in
      rw passes (inl (ap (λ x. record { to = x; msg = msg; critical = true }) (sym same)))
  | inr e ↦
      let rest = In-each msg v test vs (ground arith) t in
      elim (Bool-cases (test w)) [ inl f ↦ rw f (inr rest) | inr f ↦ rw f rest ]
]

module _ {Value : Type 0} where
  wait_tick_due :
      (env : Env) (n : Node Value) (v : Text)
      → (r : Role) → n.role ≡ r
      → r ≢ leader
      → leb n.election_deadline_ms env.now ≡ true
      → mem v n.cfg.voters ≡ true
      → text_eq v n.cfg.node_id ≡ false
      → In (pre_vote_request n env.now v) (tick env n).1
  unfolding tick wait_tick start_pre_vote pre_vote_as send_to_others others reset_election_deadline
  wait_tick_due env n v leader e l d m o = absurd (l refl)
  wait_tick_due env n v follower e l d m o =
      rw (e, d)
        (In-each (request_of n (add64 n.hard.current_term 1) true env.now) v
          (λ w. not (text_eq w n.cfg.node_id)) n.cfg.voters m (ap not o))
  wait_tick_due env n v candidate e l d m o =
      rw (e, d)
        (In-each (request_of n (add64 n.hard.current_term 1) true env.now) v
          (λ w. not (text_eq w n.cfg.node_id)) n.cfg.voters m (ap not o))

  -- A tick of a node that does not lead, at or behind its election deadline, asks every other voter for
  -- its pre-vote for the next term.
  pub tick_asks :
      (env : Env) (n : Node Value) (v : Text)
      → n.role ≢ leader
      → n.election_deadline_ms ≤ env.now
      → mem v n.cfg.voters ≡ true
      → v ≢ n.cfg.node_id
      → In (pre_vote_request n env.now v) (tick env n).1
  tick_asks env n v l d m o =
      wait_tick_due env n v n.role refl l (ground arith) m
        (elim (Bool-cases (text_eq v n.cfg.node_id)) [
          | inl e ↦ absurd (o ((text_eq_iff v n.cfg.node_id).0 e))
          | inr e ↦ e
        ])
