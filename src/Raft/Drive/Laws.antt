-- ===== src/Raft/Drive/Laws.antt =====
-- src/ha/raft.rs: what ticks and `TimeoutNow` do to the hard state, and what a quorum read has heard.
use mathlib.Core.Bool.{false≢true}
use rdsctl.Raft.Config.Quorum.{majorities_meet}
use rdsctl.Base.{
  Bool-cases, length, keep_if, Text, text_eq, text_eq_iff, ℕ, suc, ◌+◌, ◌-◌, ◌*◌, ◌≤◌, max, ◌≡◌,
  refl, ap, ◌⊎◌, inl, inr, Bool, true, false, ◌||◌, not, Option, none, some, List, [], ◌∷◌, arith,
  text_key,
}
use rdsctl.Base.Map
use rdsctl.Base.Map.{Map}
use rdsctl.Raft.{Role, follower, candidate, leader, Node, Env}
use rdsctl.Raft.Config.{majority, others, mem}
use rdsctl.Raft.Timers.{reset_election_deadline}
use rdsctl.Raft.Election.{start_pre_vote}
use rdsctl.Raft.Drive.{
  leads, within, count_alive, lead_tick, wait_tick, tick, read_window, quorum_ok,
  can_serve_linearizable_read,
}

count_alive-length :
    (os : List Text) (window now : ℕ) (acks : Map Text ℕ)
    → count_alive os window now acks ≡ length (keep_if (λ v. within window now (Map.get v acks)) os)
unfolding count_alive
count_alive-length [] window now acks = refl
count_alive-length (o ∷ os) window now acks =
    let ih = count_alive-length os window now acks in
    elim (Bool-cases (within window now (Map.get o acks))) [
      | inl e ↦ rw e (ap suc ih)
      | inr e ↦ rw e ih
    ]

-- The others that pass a test, counted in all voters with the node itself.
alive_bound :
    (node : Text) (h : Text → Bool) (vs : List Text)
    → length (keep_if h (keep_if (λ v. not (text_eq v node)) vs))
      ≤ length (keep_if (λ v. text_eq v node || h v) vs)
alive_bound node h [] = omega arith
alive_bound node h (v ∷ vs) =
    let ih = alive_bound node h vs in
    elim (Bool-cases (text_eq v node)) [
      | inl e ↦ rw e (omega (arith, ih))
      | inr e ↦ elim (Bool-cases (h v)) [
        | inl f ↦ rw (e, f) (omega (arith, ih))
        | inr f ↦ rw (e, f) ih
      ]
    ]

alive_more :
    (node : Text) (h : Text → Bool) (vs : List Text)
    → mem node vs ≡ true
    → length (keep_if h (keep_if (λ v. not (text_eq v node)) vs)) + 1
      ≤ length (keep_if (λ v. text_eq v node || h v) vs)
alive_more node h [] m = absurd (false≢true m)
alive_more node h (v ∷ vs) m = elim (Bool-cases (text_eq v node)) [
  | inl e ↦ rw e (omega (arith, alive_bound node h vs))
  | inr e ↦
      let ih = alive_more node h vs (ground arith) in
      elim (Bool-cases (h v)) [ inl f ↦ rw (e, f) (omega (arith, ih)) | inr f ↦ rw (e, f) ih ]
]

leads-leader : (r : Role) → leads r ≡ true → r ≡ leader
leads-leader leader h = refl
leads-leader follower h = absurd (false≢true h)
leads-leader candidate h = absurd (false≢true h)

module _ {Value : Type 0} where
  start_pre_vote-hard :
      (now : ℕ) (n : Node Value)
      → ((start_pre_vote now n).hard ≡ n.hard) × ((start_pre_vote now n).disk_hard ≡ n.disk_hard)
  unfolding start_pre_vote reset_election_deadline
  start_pre_vote-hard now n = ground arith

  wait_tick-hard :
      (env : Env) (n : Node Value)
      → ((wait_tick env n).0.hard ≡ n.hard) × ((wait_tick env n).0.disk_hard ≡ n.disk_hard)
  unfolding wait_tick
  wait_tick-hard env n = ground (arith, start_pre_vote-hard env.now n)

  lead_tick-hard :
      (env : Env) (n : Node Value)
      → ((lead_tick env n).0.hard ≡ n.hard) × ((lead_tick env n).0.disk_hard ≡ n.disk_hard)
  unfolding lead_tick
  lead_tick-hard env n = ground arith

  -- A tick changes neither the term nor the vote, in memory or on the disk, whatever the role: a
  -- node that hears no leader asks for pre-votes without raising its term.
  pub tick-hard :
      (env : Env) (n : Node Value)
      → ((tick env n).0.hard ≡ n.hard) × ((tick env n).0.disk_hard ≡ n.disk_hard)
  unfolding tick
  tick-hard env n = ground (arith, wait_tick-hard env n, lead_tick-hard env n)

  -- The voters that a node takes for alive: itself, and the peers heard within the window.
  abbrev pub heard : Node Value → ℕ → Text → Bool
  heard n now v = text_eq v n.cfg.node_id || within (read_window n) now (Map.get v n.peer_ack_ms)

  counted :
      (n : Node Value) (now : ℕ)
      → can_serve_linearizable_read n now ≡ true
      → majority n.cfg ≤ 1 + count_alive (others n.cfg) (read_window n) now n.peer_ack_ms
  unfolding can_serve_linearizable_read quorum_ok
  counted n now r = ground arith

  majority-heard :
      (n : Node Value) (now : ℕ)
      → mem n.cfg.node_id n.cfg.voters ≡ true
      → can_serve_linearizable_read n now ≡ true
      → majority n.cfg ≤ length (keep_if (heard n now) n.cfg.voters)
  unfolding others
  majority-heard n now m r = omega (
    arith,
    counted n now r,
    count_alive-length (others n.cfg) (read_window n) now n.peer_ack_ms,
    alive_more n.cfg.node_id (λ v. within (read_window n) now (Map.get v n.peer_ack_ms))
        n.cfg.voters m,
  )

  -- The voter is the node itself, or its last answer reached the node no longer ago than the greater of
  -- four heartbeats and three times the lower election timeout.
  abbrev pub HeardOf : Node Value → ℕ → Text → Type 0
  HeardOf n now v =
      (v ≡ n.cfg.node_id)
      ⊎ ((t : ℕ) × (Map.get v n.peer_ack_ms ≡ some t)
          × (now - t ≤ max (4 * n.cfg.heartbeat_ms) (3 * n.cfg.election_timeout_low)))

  heard-HeardOf : (n : Node Value) (now : ℕ) (v : Text) → heard n now v ≡ true → HeardOf n now v
  heard-HeardOf n now v h = by_test (text_eq v n.cfg.node_id) refl (Map.get v n.peer_ack_ms) refl h
    where
      by_test :
          (b : Bool)
          → text_eq v n.cfg.node_id ≡ b
          → (o : Option ℕ) → Map.get v n.peer_ack_ms ≡ o
          → (b || within (read_window n) now o) ≡ true
          → HeardOf n now v
      by_test true e o f k = inl ((text_eq_iff v n.cfg.node_id).0 e)
      by_test false e none f k = absurd (false≢true k)
      by_test false e (some t) f k = inr (t, f, ground arith)

  -- A node that may serve a linearizable read is leader. If it is a voter, every majority of the voters
  -- has a member that is the node itself or whose last answer reached it no longer ago than the greater
  -- of four heartbeats and three times the lower election timeout.
  pub read_meets :
      (n : Node Value) (now : ℕ) (q : Text → Bool)
      → mem n.cfg.node_id n.cfg.voters ≡ true
      → can_serve_linearizable_read n now ≡ true
      → majority n.cfg ≤ length (keep_if q n.cfg.voters)
      → (n.role ≡ leader)
        × ((v : Text) × (mem v n.cfg.voters ≡ true) × HeardOf n now v × (q v ≡ true))
  read_meets n now q m r h =
      let (v, inside, alive, chosen) =
        majorities_meet n.cfg (heard n now) q (majority-heard n now m r) h in
      (
        leads-leader n.role (unfold can_serve_linearizable_read in ground arith),
        (v, inside, heard-HeardOf n now v alive, chosen),
      )
