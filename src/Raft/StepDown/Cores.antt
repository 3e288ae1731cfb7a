-- ===== src/Raft/StepDown/Cores.antt =====
-- src/ha/raft.rs: `step_down` and what elections depend on.
use rdsctl.Base.{
  leb, if◌then◌else◌, Bool-cases, unwrap_or, All-append, Text, ℕ, ◌≡◌, sym, subst, inl, inr, Bool,
  true, false, not, Option, none, some, List, [], ◌++◌, text_key,
}
use rdsctl.Base.Map
use rdsctl.Base.Map.{Map}
use rdsctl.Errors.{ok}
use rdsctl.State.{Op, noop}
use rdsctl.Log.{last_index}
use rdsctl.Raft.{Message, Outbound, Node, synced, Env}
use rdsctl.Raft.Config.{others}
use rdsctl.Raft.Timers.{reset_election_deadline}
use rdsctl.Raft.Election.{become_follower}
use rdsctl.Raft.Election.Cores.{Fallen, become_follower-Fallen}
use rdsctl.Raft.Replication.{broadcast_append}
use rdsctl.Raft.Replication.Free.{broadcast_append-AllFree}
use rdsctl.Raft.Replication.Leader.{append_local}
use rdsctl.Raft.Replication.Leader.Cores.{append_local-core}
use rdsctl.Raft.Drive.{leads}
use rdsctl.Raft.Safety.{core, quiet, falls, Does, IsFree, AllFree, AllFree-AllSend, Does-from}
use rdsctl.Raft.StepDown.{best_of, transfer, resigned, step_down}

module _ {Value : Type 0} (to_json : Op Value → List ℕ) where
  transfer-AllFree : (n : Node Value) (best : Option (Text × ℕ)) → AllFree (transfer to_json n best)
  unfolding transfer
  transfer-AllFree n none = tt
  transfer-AllFree n (some (t, m)) =
      elim (Bool-cases (leb (last_index n.log) (unwrap_or (Map.get t n.match_index) 0))) [
        | inl e ↦ rw e (tt, tt)
        | inr e ↦ rw e tt
      ]

  resigned-Does :
      (m : Option Message) (now : ℕ) (outs : List Outbound) (n : Node Value) (p : Node Value × Bool)
      → AllFree outs
      → Fallen n p
      → Does m n (resigned to_json now outs p)
  unfolding resigned reset_election_deadline
  resigned-Does m now outs n (n', false) free f = falls m (core n) (core n') [] f.onward f.out tt
  resigned-Does m now outs n (n', true) free f =
      falls m (core n) (core n') outs f.onward f.out (AllFree-AllSend m (core n') outs free)

  step_down_branches :
      (m : Option Message) (env : Env) (n n' : Node Value) (outs : List Outbound)
      → core n' ≡ core n
      → AllFree outs
      → env.adopt_write ≡ synced
      → (idle_node : Bool)
      → Does m n (
          if idle_node
          then (n, ok [])
          else resigned to_json env.now outs
              (become_follower n'.hard.current_term none env.adopt_write n'))
  step_down_branches m env n n' outs e free w true = quiet m (core n) [] tt
  step_down_branches m env n n' outs e free w false =
      let h =
        resigned to_json env.now outs
          (become_follower n'.hard.current_term none env.adopt_write n') in
      Does-from m n n' h e (
        resigned-Does m env.now outs n'
          (become_follower n'.hard.current_term none env.adopt_write n') free
          (subst (λ x. Fallen n' (become_follower n'.hard.current_term none x n')) (sym w)
            (become_follower-Fallen n'.hard.current_term none n')))

  pub step_down-Does :
      (m : Option Message) (env : Env) (n : Node Value)
      → env.adopt_write ≡ synced
      → Does m n (step_down to_json env n)
  unfolding step_down
  step_down-Does m env n w =
      let n' = (append_local to_json noop env.append_ok n).0 in
      let last = transfer to_json n' (best_of n'.match_index (others n'.cfg) none) in
      step_down_branches m env n n' (broadcast_append n' env ++ last)
        (append_local-core to_json noop env.append_ok n)
        (All-append (λ (o : Outbound). IsFree o.msg) (broadcast_append n' env) last
          (broadcast_append-AllFree n' env)
          (transfer-AllFree n' (best_of n'.match_index (others n'.cfg) none)))
        w (not (leads n.role))
