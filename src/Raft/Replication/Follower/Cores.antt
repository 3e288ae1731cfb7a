-- ===== src/Raft/Replication/Follower/Cores.antt =====
-- src/ha/raft.rs: `AppendEntries` and what elections depend on.
use rdsctl.Base.{
  ltb, if◌then◌else◌, Bool-cases, Text, ℕ, ◌-◌, min, max, ◌≡◌, refl, sym, subst, inl, inr, Bool,
  true, false, Option, none, some, List, [], ◌∷◌, text_key,
}
use rdsctl.Base.Map
use rdsctl.Base.Map.{Map}
use rdsctl.Errors.{ok}
use rdsctl.State.{Op}
use rdsctl.Log.{last_index, first_index}
use rdsctl.Raft.{AppendRequest, Message, Node, synced, Env}
use rdsctl.Raft.Timers.{reset_election_deadline}
use rdsctl.Raft.Election.{become_follower}
use rdsctl.Raft.Election.Cores.{Fallen, become_follower-Fallen}
use rdsctl.Raft.Replication.Free.{apply_committed-core}
use rdsctl.Raft.Safety.{core, quiet, falls, Effect-after, Does, Does-from, sends_free}
use rdsctl.Raft.Safety.Quiet.{reset-core, observe_clock-core, observe_peer_skew-core}
use rdsctl.Raft.Replication.Follower.{
  Stored, store_entries, append_resp, prev_matches, handle_append_entries, accept_request,
  advance_to, followed, observe_leader, stored,
}

module _ {Value : Type 0} (decode : List ℕ → Option (Op Value)) where
  advance_to-core : (c : ℕ) (n : Node Value) → core (advance_to decode c n) ≡ core n
  unfolding advance_to
  advance_to-core c n = elim (Bool-cases (ltb n.commit_index c)) [
    | inl e ↦ rw e (apply_committed-core decode (record n { commit_index = c }))
    | inr e ↦ rw e refl
  ]

  -- An answer of a node with this core.
  resp-Does :
      (m : Option Message) (n n' : Node Value) (to : Text) (accepted : Bool) (matched : ℕ)
      (conflict : Option ℕ) (echo now : ℕ)
      → core n' ≡ core n
      → Does m n (n', ok (append_resp decode n' to accepted matched conflict echo now ∷ []))
  unfolding append_resp
  resp-Does m n n' to accepted matched conflict echo now e =
      sends_free m n n' (append_resp decode n' to accepted matched conflict echo now ∷ []) e
        (tt, tt)

  stored-Does :
      (m : Option Message) (r : AppendRequest) (env : Env) (p : Stored) (n : Node Value)
      → Does m n (stored decode r env p n)
  unfolding stored
  stored-Does m r env (l, some e, b) n = quiet m (core n) [] tt
  stored-Does m r env (l, none, b) n =
      let n' = advance_to decode (min r.leader_commit (last_index l)) (record n { log = l }) in
      resp-Does m n n' r.leader_id true (last_index l) none r.sender_ms env.now
        (advance_to-core (min r.leader_commit (last_index l)) (record n { log = l }))

  abbrev refused_at : AppendRequest → Node Value → ℕ
  refused_at r n = min (max (first_index n.log - 1) 1) (max r.prev_log_index 1)

  accept_request-Does :
      (m : Option Message) (r : AppendRequest) (env : Env) (n : Node Value)
      → Does m n (accept_request decode r env n)
  unfolding accept_request
  accept_request-Does m r env n = elim (Bool-cases (prev_matches decode r n)) [
    | inl e ↦ rw e (stored-Does m r env (store_entries n.log r.entries env) n)
    | inr e ↦
        rw e (resp-Does m n n r.leader_id false 0 (some (refused_at r n)) r.sender_ms env.now refl)
  ]

  followed-Does :
      (m : Option Message) (r : AppendRequest) (env : Env) (n : Node Value) (p : Node Value × Bool)
      → Fallen n p
      → Does m n (followed decode r env p)
  unfolding followed
  followed-Does m r env n (n', false) f = falls m (core n) (core n') [] f.onward f.out tt
  followed-Does m r env n (n', true) f =
      let o = reset_election_deadline env.now (record n' { last_heartbeat_ms = env.now }) in
      Effect-after m (core n) (core n') (core (accept_request decode r env o).0) _ f.onward f.out (
        Does-from m n' o (accept_request decode r env o)
          (reset-core env.now (record n' { last_heartbeat_ms = env.now }))
          (accept_request-Does m r env o))

  observe_leader-core :
      (r : AppendRequest) (env : Env) (n : Node Value)
      → core (observe_leader decode r env n) ≡ core n
  unfolding observe_leader
  observe_leader-core r env n = elim (Bool-cases (ltb 0 r.peer_skew_ms)) [
    | inl e ↦ rw e (observe_peer_skew-core r.leader_id r.peer_skew_ms env.now n)
    | inr e ↦ rw e (observe_clock-core r.leader_id r.sender_ms env.now n)
  ]

  branches :
      (m : Option Message) (r : AppendRequest) (env : Env) (o : Node Value) (last : ℕ)
      → env.adopt_write ≡ synced
      → (stale : Bool)
      → Does m o (
          if stale
          then (
            o,
            ok (append_resp decode o r.leader_id false 0 (some last) r.sender_ms env.now ∷ []),
          )
          else followed decode r env (become_follower r.term (some r.leader_id) env.adopt_write o))
  branches m r env o last w true =
      resp-Does m o o r.leader_id false 0 (some last) r.sender_ms env.now refl
  branches m r env o last w false =
      followed-Does m r env o (become_follower r.term (some r.leader_id) env.adopt_write o) (
        subst (λ x. Fallen o (become_follower r.term (some r.leader_id) x o)) (sym w)
          (become_follower-Fallen r.term (some r.leader_id) o))

  pub handle_append_entries-Does :
      (m : Option Message) (r : AppendRequest) (env : Env) (n : Node Value)
      → env.adopt_write ≡ synced
      → Does m n (handle_append_entries decode r env n)
  unfolding handle_append_entries
  handle_append_entries-Does m r env n w =
      let n' = record n { peer_ack_ms = Map.insert r.leader_id env.now n.peer_ack_ms } in
      let o = observe_leader decode r env n' in
      Does-from m n o (handle_append_entries decode r env n) (observe_leader-core r env n')
        (branches m r env o (last_index n.log) w (ltb r.term n.hard.current_term))
