-- ===== src/Raft/Drive/Cores.antt =====
-- src/ha/raft.rs: ticks and what elections depend on.
use mathlib.Core.Bool.{false≢true}
use rdsctl.Base.{
  ltb, leb, if◌then◌else◌, Bool-cases, u64_mod, add64, add64_lem, Text, ℕ, ◌+◌, ◌-◌, ◌<◌, ◌≡◌, refl,
  sym, ap, subst, ◌≢◌, inl, inr, Bool, true, false, ◌&&◌, Option, none, List, [], text_key,
}
use rdsctl.Base.Map
use rdsctl.Base.Map.{Map}
use rdsctl.Errors.{ok}
use rdsctl.Raft.{Role, follower, candidate, leader, pre_vote, Message, Outbound, Node, synced, Env}
use rdsctl.Raft.Config.{mem}
use rdsctl.Raft.Timers.{reset_election_deadline}
use rdsctl.Raft.Election.{
  become_follower, start_pre_vote, send_to_others, request_of, start_election,
}
use rdsctl.Raft.Election.Moves.{Later-refl}
use rdsctl.Raft.Election.Cores.{
  Fallen, become_follower-Fallen, start_election-Does, start_pre_vote-core,
}
use rdsctl.Raft.Replication.{broadcast_append}
use rdsctl.Raft.Replication.Free.{broadcast_append-AllFree}
use rdsctl.Raft.Safety.{
  Core, core, active, Onward, AllSend, Effect, quiet, falls, Does, AllFree-AllSend, Does-from,
}
use rdsctl.Raft.Safety.Quiet.{reset-core, send_to_others-AllSend}
use rdsctl.Raft.Drive.{
  leads, lead_tick, wait_tick, tick, flush, handle_timeout_now, follows_again, handle_snapshot_resp,
  is_pre_vote_campaign,
}

pre_voting-Onward :
    (n : Core) → Onward n (record n { role = candidate; campaign = pre_vote; votes = [] })
pre_voting-Onward n = record {
  same_id = refl;
  same_voters = refl;
  later = Later-refl n.hard;
  on_disk = λ e. e;
}

not_leads : (r : Role) → leads r ≡ false → r ≢ leader
not_leads leader h = absurd (false≢true (sym h))
not_leads follower h = λ e. absurd cc
not_leads candidate h = λ e. absurd cc

module _ {Value : Type 0} where
  pub follows_again-Does :
      (m : Option Message) (n : Node Value) (p : Node Value × Bool)
      → Fallen n p
      → Does m n (follows_again p)
  unfolding follows_again
  follows_again-Does m n (n', true) f = falls m (core n) (core n') [] f.onward f.out tt
  follows_again-Does m n (n', false) f = falls m (core n) (core n') [] f.onward f.out tt

  branches :
      (m : Option Message) (term index : ℕ) (who : Text) (env : Env) (o : Node Value)
      → env.adopt_write ≡ synced
      → (above good : Bool)
      → Does m o (
          if above
          then follows_again (become_follower term none env.adopt_write o)
          else if good
          then (
            record o {
              match_index = Map.insert who index o.match_index;
              next_index = Map.insert who (add64 index 1) o.next_index;
            },
            ok [],
          )
          else (o, ok []))
  branches m term index who env o w true good =
      follows_again-Does m o (become_follower term none env.adopt_write o) (
        subst (λ x. Fallen o (become_follower term none x o)) (sym w)
          (become_follower-Fallen term none o))
  branches m term index who env o w false true = quiet m (core o) [] tt
  branches m term index who env o w false false = quiet m (core o) [] tt

  pub handle_snapshot_resp-Does :
      (m : Option Message) (term : ℕ) (who : Text) (success : Bool) (index : ℕ) (env : Env)
      (n : Node Value)
      → env.adopt_write ≡ synced
      → Does m n (handle_snapshot_resp term who success index env n)
  unfolding handle_snapshot_resp
  handle_snapshot_resp-Does m term who success index env n w =
      branches m term index who env
        (record n { peer_ack_ms = Map.insert who env.now n.peer_ack_ms }) w
        (ltb n.hard.current_term term) (leads n.role && success)

  pub handle_timeout_now-Does :
      (m : Option Message) (term : ℕ) (env : Env) (n : Node Value)
      → env.vote_write ≡ synced
      → n.hard.current_term + 1 < u64_mod
      → Does m n (handle_timeout_now term env n)
  unfolding handle_timeout_now
  handle_timeout_now-Does m term env n w bound =
      let o = reset_election_deadline env.now n in
      elim (Bool-cases (ltb term n.hard.current_term)) [
        | inl e ↦ rw e (quiet m (core n) [] tt)
        | inr e ↦ elim (Bool-cases (mem n.cfg.node_id n.cfg.voters)) [
          | inr f ↦ rw (e, f) (quiet m (core n) [] tt)
          | inl f ↦
              rw (e, f)
                (Does-from m n o (start_election env.now env.vote_write o) (reset-core env.now n) (
                  start_election-Does m env.now env.vote_write o w (
                    subst (λ x. x.hard.current_term + 1 < u64_mod) (sym (reset-core env.now n))
                      bound)))
        ]
      ]

  beats-Does :
      (env : Env) (n : Node Value)
      → let n' = record n { last_heartbeat_ms = env.now } in
        Effect none (core n) (core n') (broadcast_append n' env)
  beats-Does env n =
      let n' = record n { last_heartbeat_ms = env.now } in
      quiet none (core n) (broadcast_append n' env)
        (AllFree-AllSend none (core n) (broadcast_append n' env) (broadcast_append-AllFree n' env))

  lead_tick-Does :
      (env : Env) (n : Node Value)
      → Effect none (core n) (core (lead_tick env n).0) (lead_tick env n).1
  unfolding lead_tick
  lead_tick-Does env n =
      elim (Bool-cases (leb n.cfg.heartbeat_ms (env.now - n.last_heartbeat_ms))) [
        | inl e ↦ rw e (beats-Does env n)
        | inr e ↦ rw e (quiet none (core n) [] tt)
      ]

  pub flush-Does :
      (env : Env) (n : Node Value) → Effect none (core n) (core (flush env n).0) (flush env n).1
  unfolding flush
  flush-Does env n = elim (Bool-cases (leads n.role)) [
    | inl e ↦ rw e (beats-Does env n)
    | inr e ↦ rw e (quiet none (core n) [] tt)
  ]

  asks-AllSend :
      (c : Core) (n : Node Value) (now : ℕ)
      → core n ≡ record c { role = candidate; campaign = pre_vote; votes = [] }
      → n.hard.current_term + 1 < u64_mod
      → AllSend none
          (core n)
          (send_to_others n (request_of n (add64 n.hard.current_term 1) true now))
  asks-AllSend c n now e bound =
      send_to_others-AllSend none (core n) n (request_of n (add64 n.hard.current_term 1) true now)
        (λ to g. (refl, add64_lem n.hard.current_term 1 bound, ap active e))

  asks-Effect :
      (n n' : Node Value) (msgs : List Outbound)
      → core n' ≡ record (core n) { role = candidate; campaign = pre_vote; votes = [] }
      → AllSend none (core n') msgs
      → Effect none (core n) (core n') msgs
  asks-Effect n n' msgs e s =
      falls none (core n) (core n') msgs
        (subst (Onward (core n)) (sym e) (pre_voting-Onward (core n))) (ap active e) s

  wait_branches :
      (n n' : Node Value) (msgs : List Outbound)
      → core n' ≡ record (core n) { role = candidate; campaign = pre_vote; votes = [] }
      → AllSend none (core n') msgs
      → (due pre : Bool)
      → let p : Node Value × List Outbound =
          if due then (if pre then (n', msgs) else (n', [])) else (n, []) in
        Effect none (core n) (core p.0) p.1
  wait_branches n n' msgs e s true true = asks-Effect n n' msgs e s
  wait_branches n n' msgs e s true false = asks-Effect n n' [] e tt
  wait_branches n n' msgs e s false pre = quiet none (core n) [] tt

  wait_tick-Does :
      (env : Env) (n : Node Value)
      → n.role ≢ leader
      → n.hard.current_term + 1 < u64_mod
      → Effect none (core n) (core (wait_tick env n).0) (wait_tick env n).1
  unfolding wait_tick
  wait_tick-Does env n f bound =
      let n' = start_pre_vote env.now n in
      let e = start_pre_vote-core env.now n f in
      wait_branches n n'
        (send_to_others n' (request_of n' (add64 n'.hard.current_term 1) true env.now)) e
        (asks-AllSend (core n) n' env.now e
          (subst (λ x. x.hard.current_term + 1 < u64_mod) (sym e) bound))
        (leb n.election_deadline_ms env.now) (is_pre_vote_campaign n'.campaign)

  pub tick-Does :
      (env : Env) (n : Node Value)
      → n.hard.current_term + 1 < u64_mod
      → Effect none (core n) (core (tick env n).0) (tick env n).1
  unfolding tick
  tick-Does env n bound = elim (Bool-cases (leads n.role)) [
    | inl e ↦
        subst (λ (p : Node Value × List Outbound). Effect none (core n) (core p.0) p.1)
          (sym (tick_leads env n e)) (lead_tick-Does env n)
    | inr e ↦
        subst (λ (p : Node Value × List Outbound). Effect none (core n) (core p.0) p.1)
          (sym (tick_waits env n e)) (wait_tick-Does env n (not_leads n.role e) bound)
  ]
    where
      tick_leads : (env : Env) (n : Node Value) → leads n.role ≡ true → tick env n ≡ lead_tick env n
      tick_leads env n e = rw e refl

      tick_waits :
          (env : Env) (n : Node Value) → leads n.role ≡ false → tick env n ≡ wait_tick env n
      tick_waits env n e = rw e refl
