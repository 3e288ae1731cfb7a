-- ===== src/Log/Laws.antt =====
-- src/ha/log.rs: the indices of the records, and what an append does.
use rdsctl.Base.{
  ltb, if◌then◌else◌, length, get_elem?, last_from, last?, length-append, u64_mod, add64, add64_lem,
  ℕ, zero, suc, ◌+◌, ◌-◌, ◌<◌, ◌≡◌, refl, ap, subst, ◌∙◌, ◌⊎◌, inl, inr, Bool, true, false, none,
  some, List, [], ◌∷◌, ◌++◌, arith,
}
use rdsctl.Log.{
  Record, PendingEntry, Log, last_index, get, prev_hash_for_next, stage, append_batch,
  check_indices, get_from, index_or,
}

-- The records have the indices `start`, `start + 1` and so on.
abbrev pub Consecutive : ℕ → List Record → Type 0
Consecutive start [] = Unit
Consecutive start (r ∷ rs) = (r.index ≡ start) × Consecutive (start + 1) rs

pub record IsWellFormed (start : ℕ) (l : Log) : Type 0 where
  pub consecutive : Consecutive start l.entries
  pub positive : 0 < start
  pub bounded : start + length l.entries < u64_mod

last_from-Consecutive :
    (start : ℕ) (r : Record) (rs : List Record)
    → Consecutive start (r ∷ rs)
    → (last_from r rs).index ≡ start + length rs
last_from-Consecutive start r [] c = omega arith
last_from-Consecutive start r (q ∷ rs) c = omega (arith, last_from-Consecutive (start + 1) q rs c.1)

-- The last index is 0 for an empty log, and otherwise ends the consecutive indices.
pub last_index_lem :
    (start : ℕ) (l : Log)
    → IsWellFormed start l
    → ((l.entries ≡ []) × (last_index l ≡ 0))
      ⊎ ((0 < length l.entries) × (last_index l + 1 ≡ start + length l.entries))
unfolding last_index
last_index_lem start l w = cases l.entries w.consecutive
  where
    cases :
        (rs : List Record)
        → Consecutive start rs
        → ((rs ≡ []) × (index_or 0 (last? rs) ≡ 0))
          ⊎ ((0 < length rs) × (index_or 0 (last? rs) + 1 ≡ start + length rs))
    cases [] c = inl (refl, refl)
    cases (r ∷ rs) c = inr (omega arith, omega (arith, last_from-Consecutive start r rs c))

get_elem?-Consecutive :
    (start k : ℕ) (rs : List Record) (r : Record)
    → Consecutive start rs
    → get_elem? rs k ≡ some r
    → r.index ≡ start + k
get_elem?-Consecutive start k [] r c h = cc
get_elem?-Consecutive start zero (q ∷ rs) r c h = ground arith
get_elem?-Consecutive start (suc k) (q ∷ rs) r c h =
    omega (arith, get_elem?-Consecutive (start + 1) k rs r c.1 h)

-- `get` in terms of the position.
get_lem :
    (start i : ℕ) (l : Log)
    → IsWellFormed start l
    → get l i ≡ (if ltb i start then none else get_elem? l.entries (i - start))
unfolding get
get_lem start i l w = by_entries l.entries w.consecutive
  where
    by_entries :
        (rs : List Record)
        → Consecutive start rs
        → get_from rs i ≡ (if ltb i start then none else get_elem? rs (i - start))
    by_entries [] c = ground arith
    by_entries (r ∷ rs) c = rw c.0

-- In a log with consecutive indices a record is found under its own index.
pub get-index :
    (start i : ℕ) (l : Log) (r : Record) → IsWellFormed start l → get l i ≡ some r → r.index ≡ i
get-index start i l r w h =
    ground (
      arith,
      get_lem start i l w,
      get_elem?-Consecutive start (i - start) l.entries r w.consecutive,
    )

get_elem?-append :
    (rs ss : List Record) (k : ℕ) (r : Record)
    → get_elem? rs k ≡ some r
    → get_elem? (rs ++ ss) k ≡ some r
get_elem?-append [] ss k r h = cc
get_elem?-append (q ∷ rs) ss zero r h = h
get_elem?-append (q ∷ rs) ss (suc k) r h = get_elem?-append rs ss k r h

Consecutive-append :
    (start : ℕ) (rs ss : List Record)
    → Consecutive start rs
    → Consecutive (start + length rs) ss
    → Consecutive start (rs ++ ss)
Consecutive-append start [] ss c d = subst (λ (n : ℕ). Consecutive n ss) (omega arith) d
Consecutive-append start (r ∷ rs) ss c d = (
  c.0,
  Consecutive-append (start + 1) rs ss c.1 (subst (λ (n : ℕ). Consecutive n ss) (omega arith) d),
)

check_first :
    (expect : ℕ) (e : PendingEntry) (es : List PendingEntry)
    → check_indices expect (e ∷ es) ≡ none
    → (e.index ≡ expect) × (check_indices (add64 expect 1) es ≡ none)
unfolding check_indices
check_first expect e es h = ground arith

stage-Consecutive :
    (shard expect : ℕ) (prev : List ℕ) (es : List PendingEntry)
    → expect + length es < u64_mod
    → check_indices expect es ≡ none
    → Consecutive expect (stage shard prev es) × (length (stage shard prev es) ≡ length es)
unfolding stage
stage-Consecutive shard expect prev [] b h = (tt, refl)
stage-Consecutive shard expect prev (e ∷ es) b h =
    let (here, rest) = check_first expect e es h in
    let rest' = subst (λ n. check_indices n es ≡ none) (add64_lem expect 1 (omega arith)) rest in
    let ih = stage-Consecutive shard (expect + 1) _ es (omega arith) rest' in
    ((here, ih.0), omega (arith, ih.1))

-- An append leaves the log as it was, or puts the staged batch behind it.
pub append_kept_or_grown :
    (l : Log) (batch : List PendingEntry) (disk : Bool)
    → ((append_batch l batch disk).0 ≡ l)
      ⊎ ((append_batch l batch disk).0
          ≡ record l { entries = l.entries ++ stage l.shard (prev_hash_for_next l) batch })
unfolding append_batch
append_kept_or_grown l [] disk = inl refl
append_kept_or_grown l (e ∷ es) true = ground arith
append_kept_or_grown l (e ∷ es) false = ground arith

append_accepted :
    (l : Log) (batch : List PendingEntry) (disk : Bool)
    → (append_batch l batch disk).1 ≡ none
    → (batch ≡ [])
      ⊎ ((check_indices (add64 (last_index l) 1) batch ≡ none)
          × ((append_batch l batch disk).0
              ≡ record l { entries = l.entries ++ stage l.shard (prev_hash_for_next l) batch }))
unfolding append_batch
append_accepted l [] disk h = inl refl
append_accepted l (e ∷ es) true h = inr (ground arith)
append_accepted l (e ∷ es) false h = ground arith

-- The log was not emptied: the next index follows the last record, or is the first of all.
abbrev pub Continues : ℕ → Log → Type 0
Continues start l = last_index l + 1 ≡ start + length l.entries

-- The last index of a log that grew by `n` records.
last_index-grown :
    (start : ℕ) (l l' : Log) (n : ℕ)
    → IsWellFormed start l
    → IsWellFormed start l'
    → Continues start l
    → length l'.entries ≡ length l.entries + n
    → last_index l' ≡ last_index l + n
last_index-grown start l l' n w w' c e = elim (last_index_lem start l' w') [
  | inl (none_left, zero_index) ↦ elim (last_index_lem start l w) [
    | inl (p, q) ↦ omega (arith, ap (λ (x : List Record). length x) none_left)
    | inr (p, q) ↦ omega (arith, ap (λ (x : List Record). length x) none_left)
  ]
  | inr (p, q) ↦ omega arith
]

get-grown :
    (start i : ℕ) (l : Log) (more : List Record) (r : Record)
    → IsWellFormed start l
    → IsWellFormed start (record l { entries = l.entries ++ more })
    → get l i ≡ some r
    → get (record l { entries = l.entries ++ more }) i ≡ some r
get-grown start i l more r w w' p = ground (
  arith,
  get_lem start i l w,
  get_lem start i (record l { entries = l.entries ++ more }) w',
  get_elem?-append l.entries more (i - start) r,
)

-- In a log with consecutive indices that its last index continues, an accepted batch that does
-- not make the indices wrap around keeps them consecutive, moves the last index on by its
-- length, and keeps every record under its index.
pub append_batch_accepted :
    (start : ℕ) (l : Log) (batch : List PendingEntry) (disk : Bool)
    → IsWellFormed start l
    → Continues start l
    → start + length l.entries + length batch < u64_mod
    → (append_batch l batch disk).1 ≡ none
    → IsWellFormed start (append_batch l batch disk).0
      × (last_index (append_batch l batch disk).0 ≡ last_index l + length batch)
      × ((i : ℕ) (r : Record) → get l i ≡ some r → get (append_batch l batch disk).0 i ≡ some r)
append_batch_accepted start l batch disk w c b h = elim (append_accepted l batch disk h) [
  | inl e ↦ rw e (unfold append_batch in (w, omega arith, λ i r p. p))
  | inr (checked, result) ↦ rw result (extended checked)
]
  where
    staged : List Record
    staged = stage l.shard (prev_hash_for_next l) batch

    l' : Log
    l' = record l { entries = l.entries ++ staged }

    extended :
        check_indices (add64 (last_index l) 1) batch ≡ none
        → IsWellFormed start l'
          × (last_index l' ≡ last_index l + length batch)
          × ((i : ℕ) (r : Record) → get l i ≡ some r → get l' i ≡ some r)
    extended checked =
        let at_end =
          subst (λ n. check_indices n batch ≡ none) (add64_lem (last_index l) 1 (omega arith) ∙ c)
            checked in
        let s =
          stage-Consecutive l.shard (start + length l.entries) (prev_hash_for_next l) batch b
            at_end in
        let w' : IsWellFormed start l' = record {
          consecutive = Consecutive-append start l.entries staged w.consecutive s.0;
          positive = w.positive;
          bounded = omega (arith, length-append l.entries staged, s.1);
        } in
        (
          w',
          last_index-grown start l l' (length batch) w w' c
              (omega (arith, length-append l.entries staged, s.1)),
          λ i r p. get-grown start i l staged r w w' p,
        )
