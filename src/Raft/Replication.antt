-- ===== src/Raft/Replication.antt =====
-- src/ha/raft.rs: appending, committing and applying entries, on the leader and on a follower.
-- `to_json` and `decode` are the JSON forms of operations.
pub mod Leader
pub mod Follower
pub mod Commit
pub mod Free
pub mod Applying
use rdsctl.Base.{
  ltb, leb, ◌==◌, if◌then◌else◌, unwrap_or, length, take, drop, add64, Text, ℕ, zero, suc, ◌+◌, ◌-◌,
  Bool, true, false, ◌&&◌, Option, none, some, List, [], ◌∷◌, ◌++◌, map, text_key, nat_key,
}
use rdsctl.Base.Map
use rdsctl.Base.Map.{Map}
use rdsctl.State.{Op, noop}
use rdsctl.State.Apply.{apply}
use rdsctl.Log.{Record, Log, last_index, get, term_at, entries_from}
use rdsctl.Raft.{EntryMeta, append_entries, install_snapshot, Outbound, Node, Env}
use rdsctl.Raft.Config.{majority, others}
use rdsctl.Raft.Skew.{peer_skew_or_zero}

-- How many of the match indices have reached `n`.
unfoldable pub count_reached : ℕ → Map Text ℕ → ℕ
count_reached n [] = 0
count_reached n ((v, m) ∷ ms) = let rest = count_reached n ms in if leb n m then suc rest else rest

abbrev pub is_term : ℕ → Option ℕ → Bool
is_term t none = false
is_term t (some u) = u == t

-- The loop of `advance_commit`: the rounds left, the index, and the commit index so far.
unfoldable pub scan_commit : Log → ℕ → ℕ → Map Text ℕ → ℕ → ℕ → ℕ → ℕ
scan_commit l term maj matches zero n commit = commit
scan_commit l term maj matches (suc k) n commit =
    scan_commit l term maj matches k (n + 1)
      (if is_term term (term_at l n) && leb maj (count_reached n matches) then n else commit)

-- `results` keeps the 4096 newest entries.
abbrev trim_results {ℓ} : {A : Type ℓ} → Map ℕ A → Map ℕ A
trim_results m = drop (length m - 4096) m

module _ {Value : Type 0} (decode : List ℕ → Option (Op Value)) where
  -- One round of the loop of `apply_committed`; an entry that does not parse counts as `noop`.
  pub apply_record : Record → ℕ → Option (Op Value) → Node Value → Node Value
  apply_record r idx none n = record n { sm = (apply r.term idx noop n.sm).0 }
  apply_record r idx (some op) n = record n {
    sm = (apply r.term idx op n.sm).0;
    results = Map.insert idx (apply r.term idx op n.sm).1 n.results;
  }

  -- The loop, with fuel for the entries left.
  unfoldable pub apply_loop : ℕ → Node Value → Node Value
  unfolding apply_record
  apply_loop zero n = n
  apply_loop (suc k) n =
      let idx = add64 n.sm.applied_index 1 in
      elim (get n.log idx) [
        | none ↦ n
        | some r ↦ apply_loop k (apply_record r idx (decode r.payload) n)
      ]

  unfoldable pub apply_committed : Node Value → Node Value
  unfolding apply_loop
  apply_committed n =
      let n' = apply_loop (n.commit_index - n.sm.applied_index) n in
      record n' { results = trim_results n'.results }

  -- `advance_commit`.
  unfoldable pub advance_commit : Node Value → Node Value
  unfolding scan_commit majority
  advance_commit n = apply_committed (record n {
    commit_index =
        scan_commit n.log n.hard.current_term (majority n.cfg) n.match_index
          (last_index n.log - n.commit_index) (n.commit_index + 1) n.commit_index;
  })

-- A payload is the JSON of an operation, so that `from_utf8_lossy` leaves its bytes as they are.
abbrev entry_of : Record → EntryMeta
entry_of r = record { term = r.term; index = r.index; op_json = r.payload }

abbrev term_or_zero : Option ℕ → ℕ
term_or_zero none = 0
term_or_zero (some t) = t

module _ {Value : Type 0} where
  prev_term : Node Value → ℕ → ℕ
  prev_term n prev_index =
      if prev_index == 0
      then 0
      else if prev_index == n.snapshot_index
      then n.snapshot_term
      else term_or_zero (term_at n.log prev_index)

  unfoldable pub append_request : Node Value → Text → ℕ → ℕ → Outbound
  unfolding prev_term peer_skew_or_zero
  append_request n peer next now = record {
    to = peer;
    msg = append_entries (record {
      term = n.hard.current_term;
      leader_id = n.cfg.node_id;
      prev_log_index = next - 1;
      prev_log_term = prev_term n (next - 1);
      entries = map entry_of (take n.cfg.max_entries_per_append (entries_from n.log next));
      leader_commit = n.commit_index;
      sender_ms = now;
      peer_skew_ms = peer_skew_or_zero n peer now;
    });
    critical = true;
  }

  -- `append_for`: a peer whose next entry was compacted gets the snapshot, if it can be read.
  unfoldable pub append_for : Node Value → Text → Env → List Outbound
  unfolding append_request
  append_for n peer env =
      let next = unwrap_or (Map.get peer n.next_index) (add64 (last_index n.log) 1) in
      elim env.snapshot_json [
        | none ↦ append_request n peer next env.now ∷ []
        | some json ↦
            if leb next n.snapshot_index && ltb 0 n.snapshot_index
            then record {
              to = peer;
              msg = install_snapshot n.hard.current_term n.cfg.node_id json;
              critical = false;
            }
              ∷ []
            else append_request n peer next env.now ∷ []
      ]

  unfoldable pub append_each : Node Value → List Text → Env → List Outbound
  append_each n [] env = []
  append_each n (p ∷ ps) env = append_for n p env ++ append_each n ps env

  unfoldable pub broadcast_append : Node Value → Env → List Outbound
  unfolding append_each
  broadcast_append n env = append_each n (others n.cfg) env
