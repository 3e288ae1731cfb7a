-- ===== src/Raft/Handle/Cores.antt =====
-- src/ha/raft.rs: `handle` and what elections depend on.
use rdsctl.Base.{
  ltb, Bool-cases, u64_mod, Text, ◌+◌, ◌<◌, ◌≡◌, refl, sym, subst, ◌⊎◌, inl, inr, Bool, true, false,
  ◌&&◌, Option, none, some, [],
}
use rdsctl.Errors.{ok, err}
use rdsctl.Raft.{
  Message, request_vote, request_vote_resp, append_entries, append_entries_resp, install_snapshot,
  install_snapshot_resp, timeout_now, term_of, Node, synced, Env,
}
use rdsctl.Raft.Election.{Handled, become_follower}
use rdsctl.Raft.Election.Cores.{Fallen, become_follower-Fallen, handle_request_vote-Does}
use rdsctl.Raft.Replication.Leader.Cores.{handle_vote_resp-Does, handle_append_resp-Does}
use rdsctl.Raft.Replication.Follower.Cores.{handle_append_entries-Does}
use rdsctl.Raft.Drive.Cores.{handle_snapshot_resp-Does, handle_timeout_now-Does}
use rdsctl.Raft.Snapshots.{Codec}
use rdsctl.Raft.Snapshots.Cores.{handle_install_snapshot-Does}
use rdsctl.Raft.Safety.{core, Effect, falls, Effect-after, outs_of, Does}
use rdsctl.Raft.Handle.{
  raises_term, dispatch, dispatched, meet_term, handle_inner, delivered, handle,
}

module _ {Value : Type 0} (codec : Codec Value) where
  -- Every branch, with writes of the hard state that succeed, and a term that does not wrap around.
  dispatch-Does :
      (from : Text) (m : Message) (env : Env) (n : Node Value)
      → env.adopt_write ≡ synced
      → env.vote_write ≡ synced
      → n.hard.current_term + 1 < u64_mod
      → Does (some m) n (dispatch codec from m env n)
  unfolding dispatch
  dispatch-Does from (request_vote q) env n a v b = handle_request_vote-Does from q env n v
  dispatch-Does from (request_vote_resp r) env n a v b =
      handle_vote_resp-Does codec.of_op r env n v b
  dispatch-Does from (append_entries r) env n a v b =
      handle_append_entries-Does codec.op_of (some (append_entries r)) r env n a
  dispatch-Does from (append_entries_resp r) env n a v b =
      handle_append_resp-Does codec.op_of (some (append_entries_resp r)) r env n a
  dispatch-Does from (install_snapshot term who json) env n a v b =
      handle_install_snapshot-Does codec (some (install_snapshot term who json)) term who json env n
        a
  dispatch-Does from (install_snapshot_resp term who success index) env n a v b =
      handle_snapshot_resp-Does (some (install_snapshot_resp term who success index)) term who
        success index env n a
  dispatch-Does from (timeout_now term who) env n a v b =
      handle_timeout_now-Does (some (timeout_now term who)) term env n v b

  -- The step on terms leaves the node as it was, or takes it out of the race.
  meet_term_cases :
      (m : Message) (env : Env) (n : Node Value)
      → env.adopt_write ≡ synced
      → (meet_term codec m env n ≡ (n, true)) ⊎ Fallen n (meet_term codec m env n)
  unfolding meet_term
  meet_term_cases m env n a =
      elim (Bool-cases (ltb n.hard.current_term (term_of m) && raises_term m)) [
        | inl e ↦ inr (
            rw e (
              subst (λ x. Fallen n (become_follower (term_of m) none x n)) (sym a)
                (become_follower-Fallen (term_of m) none n)))
        | inr e ↦ inl (rw e refl)
      ]

  dispatched-Does :
      (from : Text) (m : Message) (env : Env) (n : Node Value) (p : Node Value × Bool)
      → env.adopt_write ≡ synced
      → env.vote_write ≡ synced
      → p.0.hard.current_term + 1 < u64_mod
      → Fallen n p
      → Does (some m) n (dispatched codec from m env p)
  unfolding dispatched
  dispatched-Does from m env n (n', false) a v b f =
      falls (some m) (core n) (core n') [] f.onward f.out tt
  dispatched-Does from m env n (n', true) a v b f =
      let h = dispatch codec from m env n' in
      Effect-after (some m) (core n) (core n') (core h.0) (outs_of h.1) f.onward f.out
        (dispatch-Does from m env n' a v b)

  handle_inner-Does :
      (from : Text) (m : Message) (env : Env) (n : Node Value)
      → env.adopt_write ≡ synced
      → env.vote_write ≡ synced
      → n.hard.current_term + 1 < u64_mod
      → (meet_term codec m env n).0.hard.current_term + 1 < u64_mod
      → Does (some m) n (handle_inner codec from m env n)
  unfolding handle_inner dispatched
  handle_inner-Does from m env n a v b b' = elim (meet_term_cases m env n a) [
    | inl e ↦
        subst (λ p. Does (some m) n (dispatched codec from m env p)) (sym e)
          (dispatch-Does from m env n a v b)
    | inr f ↦ dispatched-Does from m env n (meet_term codec m env n) a v b' f
  ]

  delivered-Effect :
      (m : Option Message) (n : Node Value) (h : Handled Value)
      → Does m n h
      → Effect m (core n) (core (delivered codec h).0) (delivered codec h).1
  unfolding delivered
  delivered-Effect m n (n', ok outs) d = d
  delivered-Effect m n (n', err e) d = d

  pub handle-Effect :
      (from : Text) (m : Message) (env : Env) (n : Node Value)
      → env.adopt_write ≡ synced
      → env.vote_write ≡ synced
      → n.hard.current_term + 1 < u64_mod
      → (meet_term codec m env n).0.hard.current_term + 1 < u64_mod
      → Effect (some m) (core n) (core (handle codec from m env n).0) (handle codec from m env n).1
  unfolding handle
  handle-Effect from m env n a v b b' =
      delivered-Effect (some m) n (handle_inner codec from m env n)
        (handle_inner-Does from m env n a v b b')
