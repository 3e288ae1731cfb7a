-- ===== src/Raft/Safety/Quiet.antt =====
-- src/ha/raft.rs: the functions that leave alone what elections depend on.
use rdsctl.Base.{
  ◌==◌, Bool-cases, Text, ℕ, ◌≡◌, refl, inl, inr, true, ◌||◌, Option, List, [], ◌∷◌, map,
}
use rdsctl.Raft.{Message, Node}
use rdsctl.Raft.Config.{others}
use rdsctl.Raft.Timers.{reset_election_deadline}
use rdsctl.Raft.Skew.{push_sample, observe_clock, observe_clock_rtt, observe_peer_skew}
use rdsctl.Raft.Election.{send_to_others}
use rdsctl.Raft.Safety.{Core, core, Sends, AllSend}

module _ {Value : Type 0} where
  pub reset-core : (now : ℕ) (n : Node Value) → core (reset_election_deadline now n) ≡ core n
  unfolding reset_election_deadline
  reset-core now n = refl

  pub observe_clock-core :
      (peer : Text) (sender_ms local_ms : ℕ) (n : Node Value)
      → core (observe_clock peer sender_ms local_ms n) ≡ core n
  unfolding observe_clock push_sample
  observe_clock-core peer sender_ms local_ms n = elim (Bool-cases (sender_ms == 0)) [
    | inl e ↦ rw e refl
    | inr e ↦ rw e refl
  ]

  pub observe_clock_rtt-core :
      (peer : Text) (sender_ms local_ms echo_ms : ℕ) (n : Node Value)
      → core (observe_clock_rtt peer sender_ms local_ms echo_ms n) ≡ core n
  unfolding observe_clock_rtt push_sample
  observe_clock_rtt-core peer sender_ms local_ms echo_ms n =
      elim (Bool-cases (sender_ms == 0 || echo_ms == 0)) [
        | inl e ↦ rw e (observe_clock-core peer sender_ms local_ms n)
        | inr e ↦ rw e refl
      ]

  pub observe_peer_skew-core :
      (peer : Text) (skew_ms local_ms : ℕ) (n : Node Value)
      → core (observe_peer_skew peer skew_ms local_ms n) ≡ core n
  unfolding observe_peer_skew push_sample
  observe_peer_skew-core peer skew_ms local_ms n = refl

  pub send_to_others-AllSend :
      (m : Option Message) (c : Core) (n : Node Value) (msg : Message)
      → ((to : Text) → Sends m c to msg)
      → AllSend m c (send_to_others n msg)
  unfolding send_to_others
  send_to_others-AllSend m c n msg h = over (others n.cfg)
    where
      over :
          (vs : List Text)
          → AllSend m c (map (λ v. record { to = v; msg = msg; critical = true }) vs)
      over [] = tt
      over (v ∷ vs) = (h v, over vs)
