-- ===== src/Raft/Replication/Free.antt =====
-- src/ha/raft.rs: appending, committing and applying leave alone what elections depend on.
use rdsctl.Base.{
  ltb, leb, Bool-cases, unwrap_or, All-append, add64, Text, ℕ, zero, suc, ◌+◌, ◌-◌, ◌≡◌, refl, ap,
  ◌∙◌, inl, inr, ◌&&◌, Option, none, some, List, [], ◌∷◌, text_key,
}
use rdsctl.Base.Map
use rdsctl.Base.Map.{Map}
use rdsctl.State.{Op}
use rdsctl.Log.{Record, last_index}
use rdsctl.Raft.{Outbound, Node, Env}
use rdsctl.Raft.Config.{majority, others}
use rdsctl.Raft.Replication.{
  scan_commit, apply_record, apply_loop, apply_committed, advance_commit, append_request,
  append_for, append_each, broadcast_append,
}
use rdsctl.Raft.Replication.Commit.{round, apply_loop-round}
use rdsctl.Raft.Safety.{core, IsFree, AllFree}

module _ {Value : Type 0} where
  pub append_for-AllFree :
      (n : Node Value) (peer : Text) (env : Env) → AllFree (append_for n peer env)
  unfolding append_for append_request
  append_for-AllFree n peer env = go env.snapshot_json refl
    where
      go : (o : Option (List ℕ)) → env.snapshot_json ≡ o → AllFree (append_for n peer env)
      go none e = rw (append_for, e) (tt, tt)
      go (some json) e =
          let next = unwrap_or (Map.get peer n.next_index) (add64 (last_index n.log) 1) in
          elim (Bool-cases (leb next n.snapshot_index && ltb 0 n.snapshot_index)) [
            | inl f ↦ rw (append_for, e, f) (tt, tt)
            | inr f ↦ rw (append_for, e, f) (tt, tt)
          ]

  append_each-AllFree :
      (n : Node Value) (ps : List Text) (env : Env) → AllFree (append_each n ps env)
  unfolding append_each
  append_each-AllFree n [] env = tt
  append_each-AllFree n (p ∷ ps) env =
      All-append (λ (o : Outbound). IsFree o.msg) (append_for n p env) (append_each n ps env)
        (append_for-AllFree n p env) (append_each-AllFree n ps env)

  pub broadcast_append-AllFree : (n : Node Value) (env : Env) → AllFree (broadcast_append n env)
  unfolding broadcast_append
  broadcast_append-AllFree n env = append_each-AllFree n (others n.cfg) env

module _ {Value : Type 0} (decode : List ℕ → Option (Op Value)) where
  apply_record-core :
      (r : Record) (idx : ℕ) (o : Option (Op Value)) (n : Node Value)
      → core (apply_record decode r idx o n) ≡ core n
  unfolding apply_record
  apply_record-core r idx none n = refl
  apply_record-core r idx (some op) n = refl

  apply_loop-core : (k : ℕ) (n : Node Value) → core (apply_loop decode k n) ≡ core n
  unfolding apply_loop round
  apply_loop-core zero n = refl
  apply_loop-core (suc k) n = elim (apply_loop-round decode k n) [
    | inl (g, e) ↦ ap (λ (x : Node Value). core x) e
    | inr (r, g, e) ↦
        ap (λ (x : Node Value). core x) e
        ∙ apply_loop-core k (round decode n r)
        ∙ apply_record-core r (add64 n.sm.applied_index 1) (decode r.payload) n
  ]

  pub apply_committed-core : (n : Node Value) → core (apply_committed decode n) ≡ core n
  unfolding apply_committed
  apply_committed-core n = apply_loop-core (n.commit_index - n.sm.applied_index) n

  pub advance_commit-core : (n : Node Value) → core (advance_commit decode n) ≡ core n
  unfolding advance_commit
  advance_commit-core n = apply_committed-core (record n {
    commit_index =
        scan_commit n.log n.hard.current_term (majority n.cfg) n.match_index
          (last_index n.log - n.commit_index) (n.commit_index + 1) n.commit_index;
  })
