-- ===== src/Raft/Config/Quorum.antt =====
-- src/ha/raft.rs: what `validate` accepts, and majorities.
use rdsctl.Base.{
  Bool-cases, length, keep_if, saturating_mul, Text, text_eq, text_eq_iff, suc, ◌+◌, ◌%◌, ◌≤◌, ◌<◌,
  ◌≡◌, refl, sym, subst, ◌↔◌, inl, inr, Bool, true, false, none, List, [], ◌∷◌, arith,
}
use rdsctl.Raft.{RaftConfig}
use rdsctl.Raft.Config.{majority, mem, all_distinct, validate}

pub keep_in :
    (p : Text → Bool) (v : Text) (vs : List Text)
    → p v ≡ true
    → length (keep_if p (v ∷ vs)) ≡ suc (length (keep_if p vs))
keep_in p v vs e = rw e

pub keep_out :
    (p : Text → Bool) (v : Text) (vs : List Text)
    → p v ≡ false
    → length (keep_if p (v ∷ vs)) ≡ length (keep_if p vs)
keep_out p v vs e = rw e

pub keep_bound :
    (p : Text → Bool) (v : Text) (vs : List Text)
    → length (keep_if p (v ∷ vs)) ≤ suc (length (keep_if p vs))
keep_bound p v vs = elim (Bool-cases (p v)) [
  | inr e ↦ omega (arith, keep_out p v vs e)
  | inl e ↦ omega (arith, keep_in p v vs e)
]

-- Two tests that together hold more often than the list is long hold at one member.
pub both_hold :
    (p q : Text → Bool) (vs : List Text)
    → length vs < length (keep_if p vs) + length (keep_if q vs)
    → (v : Text) × (mem v vs ≡ true) × (p v ≡ true) × (q v ≡ true)
both_hold p q [] h = absurd (omega arith)
both_hold p q (v ∷ vs) h = elim (Bool-cases (p v)) [
  | inr no_p ↦
      later v vs (both_hold p q vs (omega (arith, keep_out p v vs no_p, keep_bound q v vs)))
  | inl is_p ↦ elim (Bool-cases (q v)) [
    | inr no_q ↦
        later v vs (both_hold p q vs (omega (arith, keep_in p v vs is_p, keep_out q v vs no_q)))
    | inl is_q ↦ (v, mem_first v vs, is_p, is_q)
  ]
]
  where
    mem_first : (v : Text) (vs : List Text) → mem v (v ∷ vs) ≡ true
    mem_first v vs = rw ((text_eq_iff v v).1 refl)

    mem_rest : (w v : Text) (vs : List Text) → mem v vs ≡ true → mem v (w ∷ vs) ≡ true
    mem_rest w v vs h = ground arith

    later :
        (w : Text) (vs : List Text)
        → (v : Text) × (mem v vs ≡ true) × (p v ≡ true) × (q v ≡ true)
        → (v : Text) × (mem v (w ∷ vs) ≡ true) × (p v ≡ true) × (q v ≡ true)
    later w vs (v, m, e, f) = (v, mem_rest w v vs m, e, f)

-- Two majorities of the voters of a configuration, each given by a test, have a voter in common.
pub majorities_meet :
    (c : RaftConfig) (p q : Text → Bool)
    → majority c ≤ length (keep_if p c.voters)
    → majority c ≤ length (keep_if q c.voters)
    → (v : Text) × (mem v c.voters ≡ true) × (p v ≡ true) × (q v ≡ true)
unfolding majority
majorities_meet c p q hp hq = both_hold p q c.voters (omega arith)

-- What a configuration that is accepted has.
pub record Valid (c : RaftConfig) : Type 0 where
  pub three : 3 ≤ length c.voters
  pub odd : length c.voters % 2 ≡ 1
  pub distinct : all_distinct c.voters ≡ true
  pub member : mem c.node_id c.voters ≡ true
  pub skew : 0 < c.max_skew_ms
  pub heartbeat : 0 < c.heartbeat_ms
  pub timeout : 0 < c.election_timeout_low
  pub range : c.election_timeout_low ≤ c.election_timeout_high
  pub rhythm : saturating_mul c.heartbeat_ms 2 ≤ c.election_timeout_low

accepted : (c : RaftConfig) → validate c ≡ none → Valid c
unfolding validate
accepted c h = record {
  three = ground arith;
  odd = ground arith;
  distinct = ground arith;
  member = ground arith;
  skew = ground arith;
  heartbeat = ground arith;
  timeout = ground arith;
  range = ground arith;
  rhythm = ground arith;
}

valid : (c : RaftConfig) → Valid c → validate c ≡ none
unfolding validate
valid c v =
    ground (
      arith, v.three, v.odd, v.distinct, v.member, v.skew, v.heartbeat, v.timeout, v.range,
      v.rhythm,
    )

-- A configuration is accepted just when it has at least three voters and an odd number of them, all
-- different and the node among them, a positive skew and heartbeat, and timeouts in order that leave
-- room for two heartbeats.
pub validate_accepts : (c : RaftConfig) → (validate c ≡ none) ↔ Valid c
validate_accepts c = (accepted c, valid c)

-- A member that passes the test stays a member.
pub mem-keep_if :
    (test : Text → Bool) (x : Text) (ds : List Text)
    → mem x ds ≡ true
    → test x ≡ true
    → mem x (keep_if test ds) ≡ true
mem-keep_if test x [] m t = m
mem-keep_if test x (d ∷ ds) m t = elim (Bool-cases (text_eq d x)) [
  | inl e ↦ rw (subst (λ y. test y ≡ true) (sym ((text_eq_iff d x).0 e)) t) (rw e refl)
  | inr e ↦ ground (arith, mem-keep_if test x ds)
]
