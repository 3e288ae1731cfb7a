-- ===== src/Raft/Replication/Leader/Cores.antt =====
-- src/ha/raft.rs: counting votes, taking office and the answers of followers, and what elections
-- depend on.
use mathlib.Core.Bool.{false≢true}
use rdsctl.Base.{
  ltb, leb, ◌==◌, if◌then◌else◌, Bool-cases, unwrap_or, length, u64_mod, add64, Text, ℕ, ◌+◌, ◌≤◌,
  ◌<◌, min, max, ◌≡◌, refl, sym, ap, subst, ◌∙◌, ◌⊎◌, inl, inr, Bool, true, false, ◌||◌, not,
  Option, none, some, List, [], arith, text_key,
}
use rdsctl.Base.Map
use rdsctl.Base.Map.{Map}
use rdsctl.Errors.{HaError, Result, ok, err}
use rdsctl.State.{Op, noop}
use rdsctl.Log.{Log, last_index}
use rdsctl.Raft.{
  Role, follower, candidate, leader, Campaign, idle, pre_vote, vote, VoteResponse, AppendResponse,
  Message, request_vote_resp, Outbound, Node, synced, Env,
}
use rdsctl.Raft.Config.{majority}
use rdsctl.Raft.Skew.{observe_clock_rtt}
use rdsctl.Raft.Election.{become_follower}
use rdsctl.Raft.Election.Moves.{Later, Later-refl}
use rdsctl.Raft.Election.Cores.{Fallen, become_follower-Fallen, start_election-Does}
use rdsctl.Raft.Replication.{append_for}
use rdsctl.Raft.Replication.Free.{append_for-AllFree, broadcast_append-AllFree, advance_commit-core}
use rdsctl.Raft.Safety.{
  Core, core, Counted, gains, Effect, quiet, falls, outs_of, Does, AllFree, AllFree-AllSend, stays,
  Does-from, sends_free,
}
use rdsctl.Raft.Safety.Quiet.{observe_clock_rtt-core}
use rdsctl.Raft.Replication.Leader.{
  is_candidate, appended, append_local, take_office, announce, become_leader, count_pre_vote,
  count_vote, count, handle_vote_resp, acknowledged, declined, is_leader, stepped_down,
  handle_append_resp, append_as,
}

module _ {Value : Type 0} (to_json : Op Value → List ℕ) where
  appended-core :
      (index : ℕ) (p : Log × Option HaError) (n : Node Value)
      → core (appended to_json index p n).0 ≡ core n
  unfolding appended
  appended-core index (l, some e) n = refl
  appended-core index (l, none) n = refl

  append_as-core :
      (r : Role) (op : Op Value) (disk : Bool) (n : Node Value)
      → core (append_as to_json r op disk n).0 ≡ core n
  unfolding append_as
  append_as-core leader op disk n = appended-core (add64 (last_index n.log) 1) _ n
  append_as-core follower op disk n = refl
  append_as-core candidate op disk n = refl

  pub append_local-core :
      (op : Op Value) (disk : Bool) (n : Node Value)
      → core (append_local to_json op disk n).0 ≡ core n
  unfolding append_local
  append_local-core op disk n = append_as-core n.role op disk n

  announce-core :
      (env : Env) (p : Node Value × Result ℕ) → core (announce to_json env p).0 ≡ core p.0
  unfolding announce
  announce-core env (n, ok i) = refl
  announce-core env (n, err e) = refl

  announce-AllFree :
      (env : Env) (p : Node Value × Result ℕ) → AllFree (outs_of (announce to_json env p).1)
  unfolding announce
  announce-AllFree env (n, ok i) = broadcast_append-AllFree n env
  announce-AllFree env (n, err e) = tt

  pub become_leader-core :
      (env : Env) (n : Node Value)
      → core (become_leader to_json env n).0 ≡ record (core n) { role = leader }
  unfolding become_leader take_office
  become_leader-core env n =
      let o = take_office to_json env.now n in
      announce-core env (append_local to_json noop env.append_ok o)
      ∙ append_local-core noop env.append_ok o

  become_leader-AllFree :
      (env : Env) (n : Node Value) → AllFree (outs_of (become_leader to_json env n).1)
  unfolding become_leader
  become_leader-AllFree env n =
      announce-AllFree env (append_local to_json noop env.append_ok (take_office to_json env.now n))

  -- The bound on the term, and the vote write that succeeds, which a campaign needs.
  count_pre_vote-Does :
      (m : Option Message) (voter : Text) (env : Env) (n : Node Value)
      → env.vote_write ≡ synced
      → n.hard.current_term + 1 < u64_mod
      → Does m n (count_pre_vote to_json voter env n)
  unfolding count_pre_vote
  count_pre_vote-Does m voter env n w bound =
      let n' = record n { pre_votes = Map.insert voter tt n.pre_votes } in
      elim (Bool-cases (leb (majority n.cfg) (length n'.pre_votes))) [
        | inl e ↦ rw e (start_election-Does m env.now env.vote_write n' w bound)
        | inr e ↦ rw e (quiet m (core n) [] tt)
      ]

  counts :
      (r : VoteResponse) (n : Node Value) (c : Core)
      → r.granted ≡ true
      → r.term ≡ n.hard.current_term
      → n.role ≡ candidate
      → n.campaign ≡ vote
      → c ≡ record (core n) { role = c.role; votes = Map.insert r.voter tt n.votes }
      → (c.role ≡ leader → majority n.cfg ≤ length (Map.insert r.voter tt n.votes))
      → Counted r (core n) c
  unfolding majority
  counts r n c g t rl k e h = record {
    given = g;
    this_term = t;
    same_term = ap (λ x. x.hard.current_term) e;
    was_active = rw (rl, k) refl;
    counted = ap (λ x. x.votes) e;
    elected = λ l. subst (λ x. majority n.cfg ≤ length x) (sym (ap (λ x. x.votes) e)) (h l);
  }

  counts-Effect :
      (r : VoteResponse) (n : Node Value) (c : Core) (outs : List Outbound)
      → Counted r (core n) c
      → c ≡ record (core n) { role = c.role; votes = Map.insert r.voter tt n.votes }
      → AllFree outs
      → Effect (some (request_vote_resp r)) (core n) c outs
  counts-Effect r n c outs k e free = record {
    onward = record {
      same_id = ap (λ x. x.node_id) e;
      same_voters = ap (λ x. x.voters) e;
      later = subst (Later n.hard) (sym (ap (λ x. x.hard) e)) (Later-refl n.hard);
      on_disk = λ d. ap (λ x. x.disk_hard) e ∙ d ∙ sym (ap (λ x. x.hard) e);
    };
    course = gains r refl k;
    sends = AllFree-AllSend (some (request_vote_resp r)) c outs free;
  }

  count_vote_cases :
      (voter : Text) (env : Env) (n : Node Value)
      → let n' = record n { votes = Map.insert voter tt n.votes } in
        ((majority n.cfg ≤ length n'.votes)
          × (count_vote to_json voter env n ≡ become_leader to_json env n'))
        ⊎ (count_vote to_json voter env n ≡ (n', ok []))
  unfolding count_vote
  count_vote_cases voter env n =
      elim (Bool-cases (leb (majority n.cfg) (length (Map.insert voter tt n.votes)))) [
        | inl e ↦ inl (grind arith, rw e refl)
        | inr e ↦ inr (rw e refl)
      ]

  count_vote-Does :
      (r : VoteResponse) (env : Env) (n : Node Value)
      → r.granted ≡ true
      → r.term ≡ n.hard.current_term
      → n.role ≡ candidate
      → n.campaign ≡ vote
      → Does (some (request_vote_resp r)) n (count_vote to_json r.voter env n)
  count_vote-Does r env n g t rl k =
      let n' = record n { votes = Map.insert r.voter tt n.votes } in
      elim (count_vote_cases r.voter env n) [
        | inl (m, e) ↦
            let won = record (core n') { role = leader } in
            subst (Does (some (request_vote_resp r)) n) (sym e) (
              subst
                (λ c.
                  Effect (some (request_vote_resp r)) (core n) c
                    (outs_of (become_leader to_json env n').1))
                (sym (become_leader-core env n'))
                (counts-Effect r n won _ (counts r n won g t rl k refl (λ l. m)) refl
                  (become_leader-AllFree env n')))
        | inr e ↦ subst (Does (some (request_vote_resp r)) n) (sym e) (
            counts-Effect r n (core n') [] (counts r n (core n') g t rl k refl (λ l. absurd cc))
              refl tt)
      ]

  count-Does :
      (r : VoteResponse) (env : Env) (n : Node Value)
      → r.granted ≡ true
      → r.term ≡ n.hard.current_term
      → n.role ≡ candidate
      → env.vote_write ≡ synced
      → n.hard.current_term + 1 < u64_mod
      → (k : Campaign) → n.campaign ≡ k
      → Does (some (request_vote_resp r)) n (count to_json k r.voter env n)
  unfolding count
  count-Does r env n g t rl w bound pre_vote e =
      count_pre_vote-Does (some (request_vote_resp r)) r.voter env n w bound
  count-Does r env n g t rl w bound vote e = count_vote-Does r env n g t rl e
  count-Does r env n g t rl w bound idle e = quiet (some (request_vote_resp r)) (core n) [] tt

  heard_from : VoteResponse → Env → Node Value → Node Value
  heard_from r env n =
      observe_clock_rtt r.voter r.sender_ms env.now r.echo_ms
        (record n { peer_ack_ms = Map.insert r.voter env.now n.peer_ack_ms })

  heard_from-core :
      (r : VoteResponse) (env : Env) (n : Node Value) → core (heard_from r env n) ≡ core n
  unfolding heard_from
  heard_from-core r env n =
      observe_clock_rtt-core r.voter r.sender_ms env.now r.echo_ms
        (record n { peer_ack_ms = Map.insert r.voter env.now n.peer_ack_ms })

  is_candidate_lem : (r : Role) → is_candidate r ≡ true → r ≡ candidate
  is_candidate_lem candidate h = refl
  is_candidate_lem follower h = absurd (false≢true h)
  is_candidate_lem leader h = absurd (false≢true h)

  vote_resp_cases :
      (r : VoteResponse) (env : Env) (n : Node Value)
      → (handle_vote_resp to_json r env n ≡ (heard_from r env n, ok []))
        ⊎ ((r.granted ≡ true)
            × (r.term ≡ n.hard.current_term)
            × (n.role ≡ candidate)
            × (handle_vote_resp to_json r env n
                ≡ count to_json n.campaign r.voter env (heard_from r env n)))
  unfolding handle_vote_resp heard_from
  vote_resp_cases r env n =
      elim (Bool-cases (not (r.term == n.hard.current_term) || not r.granted)) [
        | inl e ↦ inl (rw e refl)
        | inr e ↦ elim (Bool-cases (is_candidate n.role)) [
          | inl f ↦ inr (ground arith, grind arith, is_candidate_lem n.role f, rw (e, f) refl)
          | inr f ↦ inl (rw (e, f) refl)
        ]
      ]

  pub handle_vote_resp-Does :
      (r : VoteResponse) (env : Env) (n : Node Value)
      → env.vote_write ≡ synced
      → n.hard.current_term + 1 < u64_mod
      → Does (some (request_vote_resp r)) n (handle_vote_resp to_json r env n)
  handle_vote_resp-Does r env n w bound =
      let o = heard_from r env n in
      let same = heard_from-core r env n in
      let msg = some (request_vote_resp r) in
      Does-from msg n o (handle_vote_resp to_json r env n) same (elim (vote_resp_cases r env n) [
        | inl e ↦ subst (Does msg o) (sym e) (quiet msg (core o) [] tt)
        | inr (g, t, rl, e) ↦ subst (Does msg o) (sym e) (
            count-Does r env o g (t ∙ sym (ap (λ x. x.hard.current_term) same))
              (ap (λ x. x.role) same ∙ rl) w
              (subst (λ x. x.hard.current_term + 1 < u64_mod) (sym same) bound) n.campaign
              (ap (λ x. x.campaign) same))
      ])

module _ {Value : Type 0} (decode : List ℕ → Option (Op Value)) where
  stepped_down-Does :
      (m : Option Message) (n : Node Value) (p : Node Value × Bool)
      → Fallen n p
      → Does m n (stepped_down decode p)
  unfolding stepped_down
  stepped_down-Does m n (n', true) f = falls m (core n) (core n') [] f.onward f.out tt
  stepped_down-Does m n (n', false) f = falls m (core n) (core n') [] f.onward f.out tt

  acknowledged-Does :
      (m : Option Message) (r : AppendResponse) (n : Node Value)
      → Does m n (acknowledged decode r n)
  unfolding acknowledged
  acknowledged-Does m r n =
      stays m n (acknowledged decode r n)
        (advance_commit-core decode (record n {
          match_index = Map.insert r.follower_id r.match_index n.match_index;
          next_index = Map.insert r.follower_id (add64 r.match_index 1) n.next_index;
        }))
        tt

  declined-Does :
      (m : Option Message) (r : AppendResponse) (env : Env) (n : Node Value)
      → Does m n (declined decode r env n)
  unfolding declined
  declined-Does m r env n =
      let hint = unwrap_or r.conflict_index 1 in
      let cur = unwrap_or (Map.get r.follower_id n.next_index) (add64 (last_index n.log) 1) in
      let next = max (max (min cur hint) (add64 n.snapshot_index 1)) 1 in
      let n' = record n { next_index = Map.insert r.follower_id next n.next_index } in
      sends_free m n n' (append_for n' r.follower_id env) refl
        (append_for-AllFree n' r.follower_id env)

  answered_by : AppendResponse → Env → Node Value → Node Value
  answered_by r env n =
      observe_clock_rtt r.follower_id r.sender_ms env.now r.echo_ms
        (record n { peer_ack_ms = Map.insert r.follower_id env.now n.peer_ack_ms })

  answered_by-core :
      (r : AppendResponse) (env : Env) (n : Node Value) → core (answered_by r env n) ≡ core n
  unfolding answered_by
  answered_by-core r env n =
      observe_clock_rtt-core r.follower_id r.sender_ms env.now r.echo_ms
        (record n { peer_ack_ms = Map.insert r.follower_id env.now n.peer_ack_ms })

  append_resp_branches :
      (m : Option Message) (r : AppendResponse) (env : Env) (n o : Node Value)
      → env.adopt_write ≡ synced
      → (above stale good : Bool)
      → Does m o (
          if above
          then stepped_down decode (become_follower r.term none env.adopt_write o)
          else if stale
          then (o, ok [])
          else if good
          then acknowledged decode r o
          else declined decode r env o)
  append_resp_branches m r env n o w true stale good =
      stepped_down-Does m o (become_follower r.term none env.adopt_write o) (
        subst (λ x. Fallen o (become_follower r.term none x o)) (sym w)
          (become_follower-Fallen r.term none o))
  append_resp_branches m r env n o w false true good = quiet m (core o) [] tt
  append_resp_branches m r env n o w false false true = acknowledged-Does m r o
  append_resp_branches m r env n o w false false false = declined-Does m r env o

  pub handle_append_resp-Does :
      (m : Option Message) (r : AppendResponse) (env : Env) (n : Node Value)
      → env.adopt_write ≡ synced
      → Does m n (handle_append_resp decode r env n)
  unfolding handle_append_resp answered_by
  handle_append_resp-Does m r env n w =
      let o = answered_by r env n in
      Does-from m n o (handle_append_resp decode r env n) (answered_by-core r env n) (
        append_resp_branches m r env n o w (ltb n.hard.current_term r.term)
          (not (is_leader decode n.role) || not (r.term == n.hard.current_term)) r.success)
