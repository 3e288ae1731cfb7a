-- ===== src/Raft/Handle/Unelected.antt =====
-- src/ha/raft.rs: a leader that meets a greater term whose write fails.
use mathlib.Core.Bool.{false≢true}
use rdsctl.Base.{
  ltb, leb, if◌then◌else◌, Bool-cases, unwrap_or, add64, Text, text_eq, text_eq_iff, ℕ, ◌-◌, ◌≤◌,
  ◌<◌, ◌≡◌, refl, ap, ◌∙◌, ◌≢◌, inl, inr, Bool, true, false, ◌&&◌, not, Option, none, some, List,
  [], ◌∷◌, arith, text_key,
}
use rdsctl.Base.Map
use rdsctl.Raft.{
  leader, RaftConfig, Message, install_snapshot, term_of, Outbound, Node, failed, Env,
}
use rdsctl.Log.{last_index}
use rdsctl.Raft.Config.{others, mem}
use rdsctl.Raft.Config.Quorum.{mem-keep_if}
use rdsctl.Raft.Election.{persist_hard_state, become_follower}
use rdsctl.Raft.Replication.{append_request, append_for, append_each, broadcast_append}
use rdsctl.Raft.Snapshots.{Codec}
use rdsctl.Raft.Drive.{leads, lead_tick, tick}
use rdsctl.Raft.Cluster.{In}
use rdsctl.Raft.Cluster.Parts.{In-append_left, In-append_right}
use rdsctl.Raft.Handle.{raises_term, meet_term, handle_inner, handle}

-- A message to `v` in the given term is among those that are sent.
abbrev pub Sends : Text → ℕ → List Outbound → Type 0
Sends v term outs = (o : Outbound) × In o outs × (o.to ≡ v) × (term_of o.msg ≡ term)

mem-others :
    (c : RaftConfig) (v : Text) → mem v c.voters ≡ true → v ≢ c.node_id → mem v (others c) ≡ true
unfolding others
mem-others c v m o =
    mem-keep_if (λ w. not (text_eq w c.node_id)) v c.voters m
      (elim (Bool-cases (text_eq v c.node_id)) [
        | inl e ↦ absurd (o ((text_eq_iff v c.node_id).0 e))
        | inr e ↦ ap not e
      ])

module _ {Value : Type 0} where
  append_for-Sends :
      (n : Node Value) (v : Text) (env : Env) → Sends v n.hard.current_term (append_for n v env)
  unfolding append_for append_request term_of
  append_for-Sends n v env = by_snapshot env.snapshot_json (
      leb (unwrap_or (Map.get v n.next_index) (add64 (last_index n.log) 1)) n.snapshot_index
      && ltb 0 n.snapshot_index)
    where
      next : ℕ
      next = unwrap_or (Map.get v n.next_index) (add64 (last_index n.log) 1)

      by_snapshot :
          (o : Option (List ℕ)) (b : Bool)
          → Sends v n.hard.current_term (elim o [
            | none ↦ append_request n v next env.now ∷ []
            | some json ↦
                if b
                then record {
                  to = v;
                  msg = install_snapshot n.hard.current_term n.cfg.node_id json;
                  critical = false;
                }
                  ∷ []
                else append_request n v next env.now ∷ []
          ])
      by_snapshot none b = (append_request n v next env.now, inl refl, refl, refl)
      by_snapshot (some json) true = (_, inl refl, refl, refl)
      by_snapshot (some json) false = (append_request n v next env.now, inl refl, refl, refl)

  append_each-Sends :
      (n : Node Value) (v : Text) (env : Env) (vs : List Text)
      → mem v vs ≡ true
      → Sends v n.hard.current_term (append_each n vs env)
  unfolding append_each
  append_each-Sends n v env [] m = absurd (false≢true m)
  append_each-Sends n v env (w ∷ vs) m = elim (Bool-cases (text_eq w v)) [
    | inl e ↦
        let (o, i, t, c) = append_for-Sends n w env in
        (
          o,
          In-append_left o (append_for n w env) (append_each n vs env) i,
          t ∙ (text_eq_iff w v).0 e,
          c,
        )
    | inr e ↦
        let (o, i, t, c) = append_each-Sends n v env vs (ground arith) in
        (o, In-append_right o (append_for n w env) (append_each n vs env) i, t, c)
  ]

  -- A tick of a leader whose heartbeat is due sends a message of its term to every other voter.
  lead_tick-Sends :
      (env : Env) (n : Node Value) (v : Text)
      → n.role ≡ leader
      → n.cfg.heartbeat_ms ≤ env.now - n.last_heartbeat_ms
      → mem v n.cfg.voters ≡ true
      → v ≢ n.cfg.node_id
      → Sends v n.hard.current_term (tick env n).1
  unfolding tick lead_tick broadcast_append
  lead_tick-Sends env n v r due m o =
      let is_due : leb n.cfg.heartbeat_ms (env.now - n.last_heartbeat_ms) ≡ true = ground arith in
      let leading : leads n.role ≡ true = ap leads r in
      rw (leading, is_due)
        (append_each-Sends (record n { last_heartbeat_ms = env.now }) v env (others n.cfg)
          (mem-others n.cfg v m o))

module _ {Value : Type 0} (codec : Codec Value) where
  -- What a node is behind a greater term whose write failed.
  half :
      (from : Text) (m : Message) (env : Env) (n : Node Value)
      → raises_term m ≡ true
      → n.hard.current_term < term_of m
      → env.adopt_write ≡ failed
      → (handle codec from m env n).0 ≡ record n {
        hard = record { current_term = term_of m; voted_for = none };
        fsync_ok = false;
      }
  unfolding handle handle_inner meet_term become_follower persist_hard_state
  half from m env n r e w =
      let higher : ltb n.hard.current_term (term_of m) ≡ true = ground arith in
      rw (higher, r, w) refl

  -- A leader that meets a greater term and fails to write it keeps its disk and stays leader in the new
  -- term, for which it has voted for nobody; and its next tick with a due heartbeat sends a message of
  -- the new term, as the leader of that term does, to every other voter.
  pub unelected_leader :
      (from : Text) (m : Message) (env later : Env) (n : Node Value) (v : Text)
      → n.role ≡ leader
      → raises_term m ≡ true
      → n.hard.current_term < term_of m
      → env.adopt_write ≡ failed
      → n.cfg.heartbeat_ms ≤ later.now - n.last_heartbeat_ms
      → mem v n.cfg.voters ≡ true
      → v ≢ n.cfg.node_id
      → ((handle codec from m env n).0.role ≡ leader)
        × ((handle codec from m env n).0.disk_hard ≡ n.disk_hard)
        × ((handle codec from m env n).0.hard.voted_for ≡ none)
        × Sends v (term_of m) (tick later (handle codec from m env n).0).1
  unelected_leader from m env later n v leading r higher w due inside o =
      rw (half from m env n r higher w)
        (leading, refl, refl, lead_tick-Sends later _ v leading due inside o)
