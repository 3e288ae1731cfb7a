-- ===== src/Raft/Replication/Follower/Storing.antt =====
-- src/ha/raft.rs: the follower's log through `AppendEntries`.
use rdsctl.Base.Map
use rdsctl.Base.{
  ltb, ◌==◌, Bool-cases, add64, ℕ, zero, suc, ◌-◌, min, ◌≡◌, refl, sym, ap, subst, ◌∙◌, inl, inr,
  Bool, true, false, Option, none, some, List, [], ◌∷◌, arith, text_key,
}
use rdsctl.Errors.{HaError}
use rdsctl.State.{Op}
use rdsctl.Log.{Log, last_index, term_at}
use rdsctl.Log.Chain.{IsChained, append_batch-IsChained, truncate_suffix-IsChained}
use rdsctl.Raft.{EntryMeta, AppendRequest, Node, Env}
use rdsctl.Raft.Skew.{push_sample, observe_clock, observe_peer_skew}
use rdsctl.Raft.Timers.{reset_election_deadline}
use rdsctl.Raft.Election.{become_follower}
use rdsctl.Raft.Replication.{apply_loop, apply_committed}
use rdsctl.Raft.Replication.Commit.{apply_record-keeps, round, apply_loop-round}
use rdsctl.Raft.Election.Moves.{become_follower-log}
use rdsctl.Raft.Replication.Follower.{
  Stored, store_entries, prev_matches, handle_append_entries, accept_request, advance_to,
  append_missing, cut_conflict, followed, missing, observe_leader, stored,
}

cut_conflict-IsChained :
    (l : Log) (e : EntryMeta) (disk : Bool) → IsChained l → IsChained (cut_conflict l e disk).0
unfolding cut_conflict
cut_conflict-IsChained l e disk h = go (term_at l e.index) refl
  where
    go : (o : Option ℕ) → term_at l e.index ≡ o → IsChained (cut_conflict l e disk).0
    go none q = rw (cut_conflict, q) h
    go (some t) q = elim (Bool-cases (e.term == t)) [
      | inl f ↦ rw (cut_conflict, q, f) h
      | inr f ↦ rw (cut_conflict, q, f) (truncate_suffix-IsChained l e.index disk h)
    ]

append_missing-IsChained :
    (es : List EntryMeta) (disk : Bool) (p : Log × Option HaError)
    → IsChained p.0
    → IsChained (append_missing es disk p).0
unfolding append_missing
append_missing-IsChained es disk (l, some e) h = h
append_missing-IsChained es disk (l, none) h = append_batch-IsChained l (missing l es) disk h

store_entries-IsChained :
    (l : Log) (es : List EntryMeta) (env : Env) → IsChained l → IsChained (store_entries l es env).0
unfolding store_entries
store_entries-IsChained l [] env h = h
store_entries-IsChained l (e ∷ es) env h =
    append_missing-IsChained (e ∷ es) env.append_ok (cut_conflict l e env.truncate_ok)
      (cut_conflict-IsChained l e env.truncate_ok h)

module _ {Value : Type 0} (decode : List ℕ → Option (Op Value)) where
  apply_loop-log : (k : ℕ) (n : Node Value) → (apply_loop decode k n).log ≡ n.log
  unfolding apply_loop round
  apply_loop-log zero n = refl
  apply_loop-log (suc k) n = elim (apply_loop-round decode k n) [
    | inl (g, e) ↦ ap (λ (x : Node Value). x.log) e
    | inr (r, g, e) ↦
        ap (λ (x : Node Value). x.log) e
        ∙ apply_loop-log k (round decode n r)
        ∙ (apply_record-keeps decode r (add64 n.sm.applied_index 1) (decode r.payload) n).1
  ]

  apply_committed-log : (n : Node Value) → (apply_committed decode n).log ≡ n.log
  unfolding apply_committed
  apply_committed-log n = apply_loop-log (n.commit_index - n.sm.applied_index) n

  advance_to-log : (c : ℕ) (n : Node Value) → (advance_to decode c n).log ≡ n.log
  unfolding advance_to
  advance_to-log c n = elim (Bool-cases (ltb n.commit_index c)) [
    | inl e ↦ rw e (apply_committed-log (record n { commit_index = c }))
    | inr e ↦ rw e refl
  ]

  stored-log :
      (m : AppendRequest) (env : Env) (p : Stored) (n : Node Value)
      → (stored decode m env p n).0.log ≡ p.0
  unfolding stored
  stored-log m env (l, some e, b) n = refl
  stored-log m env (l, none, b) n =
      advance_to-log (min m.leader_commit (last_index l)) (record n { log = l })

  accept_request-IsChained :
      (m : AppendRequest) (env : Env) (n : Node Value)
      → IsChained n.log
      → IsChained (accept_request decode m env n).0.log
  unfolding accept_request
  accept_request-IsChained m env n h = elim (Bool-cases (prev_matches decode m n)) [
    | inl e ↦ rw e (
        subst IsChained (sym (stored-log m env (store_entries n.log m.entries env) n))
          (store_entries-IsChained n.log m.entries env h))
    | inr e ↦ rw e h
  ]

  followed-IsChained :
      (m : AppendRequest) (env : Env) (p : Node Value × Bool)
      → IsChained p.0.log
      → IsChained (followed decode m env p).0.log
  unfolding followed reset_election_deadline
  followed-IsChained m env (n, false) h = h
  followed-IsChained m env (n, true) h =
      accept_request-IsChained m env
        (reset_election_deadline env.now (record n { last_heartbeat_ms = env.now })) h

  observe_leader-log :
      (m : AppendRequest) (env : Env) (n : Node Value) → (observe_leader decode m env n).log ≡ n.log
  unfolding observe_leader observe_peer_skew observe_clock push_sample
  observe_leader-log m env n = ground arith

  -- A follower's log keeps its hash chain through every `AppendEntries`, accepted, refused or
  -- failed on the disk, whatever entries the request has.
  pub handle_append_entries-IsChained :
      (m : AppendRequest) (env : Env) (n : Node Value)
      → IsChained n.log
      → IsChained (handle_append_entries decode m env n).0.log
  unfolding handle_append_entries
  handle_append_entries-IsChained m env n h =
      let n' =
        observe_leader decode m env
          (record n { peer_ack_ms = Map.insert m.leader_id env.now n.peer_ack_ms }) in
      let kept : IsChained n'.log =
        subst IsChained
          (sym (
            observe_leader-log m env
              (record n { peer_ack_ms = Map.insert m.leader_id env.now n.peer_ack_ms })))
          h in
      elim (Bool-cases (ltb m.term n.hard.current_term)) [
        | inl e ↦ rw e kept
        | inr e ↦ rw e (
            followed-IsChained m env (become_follower m.term (some m.leader_id) env.adopt_write n')
              (subst IsChained
                (sym (become_follower-log m.term (some m.leader_id) env.adopt_write n')) kept))
      ]
