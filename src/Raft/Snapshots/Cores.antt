-- ===== src/Raft/Snapshots/Cores.antt =====
-- src/ha/raft.rs: installing snapshots and what elections depend on.
use rdsctl.Base.{
  ltb, leb, ◌==◌, if◌then◌else◌, Bool-cases, length, Text, ℕ, ◌≡◌, refl, sym, subst, inl, inr, Bool,
  true, false, ◌&&◌, ◌||◌, not, Option, none, some, List, [], text_key,
}
use rdsctl.Base.Map
use rdsctl.Base.Map.{Map}
use rdsctl.Errors.{HaError, io, Result, ok, err}
use rdsctl.State.{StateMachine}
use rdsctl.Snapshot.{SnapshotFile, verify, seed_bytes}
use rdsctl.Log.{Log, compact_upto}
use rdsctl.Raft.{Message, Node, synced, Env}
use rdsctl.Raft.Election.{become_follower}
use rdsctl.Raft.Election.Cores.{Fallen, become_follower-Fallen}
use rdsctl.Raft.Safety.{core, quiet, falls, Effect-after, outs_of, Does}
use rdsctl.Raft.Snapshots.{
  Codec, snapshot_resp, placed, restored, checked, parsed, received, handle_install_snapshot,
  compacted, snapshot_now, maybe_snapshot,
}

module _ {Value : Type 0} (codec : Codec Value) where
  placed-Does :
      (m : Option Message) (snap : SnapshotFile) (who : Text) (p : Log × Option HaError)
      (n : Node Value)
      → Does m n (placed codec snap who p n)
  unfolding placed snapshot_resp
  placed-Does m snap who (l, some e) n = quiet m (core n) [] tt
  placed-Does m snap who (l, none) n = quiet m (core n) _ (tt, tt)

  restored-Does :
      (m : Option Message) (snap : SnapshotFile) (who : Text) (sm : Option (StateMachine Value))
      (env : Env) (n : Node Value)
      → Does m n (restored codec snap who sm env n)
  unfolding restored
  restored-Does m snap who none env n = quiet m (core n) [] tt
  restored-Does m snap who (some sm) env n = elim (Bool-cases env.save_ok) [
    | inl e ↦ rw e (
        placed-Does m snap who
          (compact_upto n.log snap.last_included_index (seed_bytes snap) env.compact_ok)
          (record n { sm = sm }))
    | inr e ↦ rw e (quiet m (core n) [] tt)
  ]

  checked-Does :
      (m : Option Message) (snap : SnapshotFile) (who : Text) (e : Option HaError) (env : Env)
      (n : Node Value)
      → Does m n (checked codec snap who e env n)
  unfolding checked snapshot_resp
  checked-Does m snap who (some e) env n = quiet m (core n) [] tt
  checked-Does m snap who none env n =
      elim (Bool-cases (leb snap.last_included_index n.snapshot_index)) [
        | inl e ↦ rw e (quiet m (core n) _ (tt, tt))
        | inr e ↦ rw e (restored-Does m snap who (codec.state_of snap.state_json) env n)
      ]

  parsed-Does :
      (m : Option Message) (o : Option SnapshotFile) (who : Text) (env : Env) (n : Node Value)
      → Does m n (parsed codec o who env n)
  unfolding parsed
  parsed-Does m none who env n = quiet m (core n) [] tt
  parsed-Does m (some snap) who env n = checked-Does m snap who (verify snap) env n

  received-Does :
      (m : Option Message) (json : List ℕ) (who : Text) (env : Env) (n : Node Value)
      (p : Node Value × Bool)
      → Fallen n p
      → Does m n (received codec json who env p)
  unfolding received
  received-Does m json who env n (n', false) f = falls m (core n) (core n') [] f.onward f.out tt
  received-Does m json who env n (n', true) f =
      let h =
        parsed codec (codec.snapshot_of json) who env (record n' { last_heartbeat_ms = env.now }) in
      Effect-after m (core n) (core n') (core h.0) (outs_of h.1) f.onward f.out
        (parsed-Does m (codec.snapshot_of json) who env (record n' { last_heartbeat_ms = env.now }))

  branches :
      (m : Option Message) (term : ℕ) (who : Text) (json : List ℕ) (env : Env) (o : Node Value)
      → env.adopt_write ≡ synced
      → (stale : Bool)
      → Does m o (
          if stale
          then (o, ok [])
          else received codec json who env (become_follower term (some who) env.adopt_write o))
  branches m term who json env o w true = quiet m (core o) [] tt
  branches m term who json env o w false =
      received-Does m json who env o (become_follower term (some who) env.adopt_write o) (
        subst (λ x. Fallen o (become_follower term (some who) x o)) (sym w)
          (become_follower-Fallen term (some who) o))

  pub handle_install_snapshot-Does :
      (m : Option Message) (term : ℕ) (who : Text) (json : List ℕ) (env : Env) (n : Node Value)
      → env.adopt_write ≡ synced
      → Does m n (handle_install_snapshot codec term who json env n)
  unfolding handle_install_snapshot
  handle_install_snapshot-Does m term who json env n w =
      let o = record n { peer_ack_ms = Map.insert who env.now n.peer_ack_ms } in
      branches m term who json env o w (ltb term n.hard.current_term)

  compacted-core :
      (upto term : ℕ) (p : Log × Option HaError) (n : Node Value)
      → core (compacted codec upto term p n).0 ≡ core n
  unfolding compacted
  compacted-core upto term (l, some e) n = refl
  compacted-core upto term (l, none) n = refl

  snapshot_branches :
      (n : Node Value) (p : Node Value × Result Bool)
      → core p.0 ≡ core n
      → (short old broken : Bool)
      → core
          (if short
            then (n, ok false)
            else if old
            then (n, ok false)
            else if broken
            then (n, err io)
            else p).0
        ≡ core n
  snapshot_branches n p e true old broken = refl
  snapshot_branches n p e false true broken = refl
  snapshot_branches n p e false false true = refl
  snapshot_branches n p e false false false = e

  pub maybe_snapshot-core :
      (env : Env) (n : Node Value) → core (maybe_snapshot codec env n).0 ≡ core n
  unfolding maybe_snapshot
  maybe_snapshot-core env n =
      let upto = n.sm.applied_index in
      let snap = snapshot_now codec n in
      let p = compact_upto n.log upto (seed_bytes snap) env.compact_ok in
      snapshot_branches n (compacted codec upto snap.last_included_term p n)
        (compacted-core upto snap.last_included_term p n)
        (n.cfg.snapshot_entry_threshold == 0
          || leb (length n.log.entries) n.cfg.snapshot_entry_threshold)
        (upto == 0 || leb upto n.snapshot_index) (not (env.sync_ok && env.save_ok))
