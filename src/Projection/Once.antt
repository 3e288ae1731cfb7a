-- ===== src/Projection/Once.antt =====
-- src/main.rs: writing rows again adds none, and what a refusing table loses.
use rdsctl.Base.{
  ltb, ◌==◌, if◌then◌else◌, length, last?, keep_if, All, All-append, Text, codes, starts_with, ℕ,
  ◌+◌, ◌-◌, ◌≤◌, ◌<◌, ◌≡◌, refl, ap, subst, ◌∙◌, ◌≢◌, Bool, true, false, Option, none, some, List,
  [], ◌∷◌, ◌++◌, arith,
}
use rdsctl.Base.Decimal.{display}
use rdsctl.Base.Decimal.Laws.{IsDigit, display-IsDigit}
use rdsctl.State.{
  Op, noop, put, delete, config_set, lease_grant, lease_renew, lease_release, lease_purge,
  step_begin, step_done, audit_append,
}
use rdsctl.Log.{Record, Log, entries_from}
use rdsctl.Projection.{
  marker, ProjectedAudit, base, add_row, project_op, project_by, row_of, collect, pending,
  Projector, commit,
}
use rdsctl.Projection.Sink.{
  has_marker, audit_marker_exists, write_row, write_rows, commit_last, sink_round,
}

abbrev pub NoSpace : Text → Type 0
NoSpace = All (λ (c : ℕ). c ≢ 32)

-- A text up to its first space is found from the text.
same_word :
    (u v t : Text) → NoSpace u → NoSpace v → starts_with (u ++ 32 ∷ t) (v ++ 32 ∷ []) ≡ true → u ≡ v
unfolding starts_with
same_word [] [] t a b h = refl
same_word [] (d ∷ v) t a (b, bs) h = absurd (b (ground arith))
same_word (c ∷ u) [] t (a, as') b h = absurd (a (ground arith))
same_word (c ∷ u) (d ∷ v) t (a, as') (b, bs) h = ground (arith, same_word u v t as' bs)

starts_word : (u t : Text) → starts_with (u ++ 32 ∷ t) (u ++ 32 ∷ []) ≡ true
unfolding starts_with
starts_word [] t = refl
starts_word (c ∷ u) t = ground (arith, starts_word u t)

digits-NoSpace : (s : Text) → All IsDigit s → NoSpace s
digits-NoSpace [] a = tt
digits-NoSpace (c ∷ s) ((l, h), a) = (λ e. absurd (omega arith), digits-NoSpace s a)

pub marker-NoSpace : (shard index : ℕ) → NoSpace (marker shard index)
unfolding marker
marker-NoSpace shard index =
    All-append (λ (c : ℕ). c ≢ 32) (codes "proj:") (display shard ++ (codes ":" ++ display index))
      (omega arith)
      (All-append (λ (c : ℕ). c ≢ 32) (display shard) (codes ":" ++ display index)
        (digits-NoSpace (display shard) (display-IsDigit shard))
        (λ e. absurd (omega arith), digits-NoSpace (display index) (display-IsDigit index)))

-- The params of the row start with its marker.
abbrev pub IsMarked : ProjectedAudit → Type 0
IsMarked row = (rest : Text) × (row.params ≡ marker row.shard row.index ++ 32 ∷ rest)

-- How many rows of the table have the marker.
abbrev pub count_marker : Text → List Text → ℕ
count_marker mk table = length (keep_if (has_marker mk) table)

count_snoc :
    (mk p : Text) (table : List Text)
    → count_marker mk (table ++ p ∷ []) ≡ count_marker mk table + (if has_marker mk p then 1 else 0)
count_snoc mk p [] = ground arith
count_snoc mk p (q ∷ table) = ground (arith, count_snoc mk p table)

absent_count :
    (mk : Text) (table : List Text)
    → audit_marker_exists true mk table ≡ false
    → count_marker mk table ≡ 0
unfolding audit_marker_exists
absent_count mk [] h = refl
absent_count mk (p ∷ table) h = ground (arith, absent_count mk table)

module _ (answers written : ℕ → Bool) (mk : Text) (word : NoSpace mk)
    (all_answer : (i : ℕ) → answers i ≡ true) where
  once :
      (row : ProjectedAudit) (table : List Text)
      → IsMarked row
      → count_marker mk table ≤ 1
      → count_marker mk (write_row answers written row table) ≤ 1
  unfolding write_row
  once row table (rest, e) one = rw (all_answer row.index) (
      by_tests (audit_marker_exists true (marker row.shard row.index) table) (written row.index)
        (has_marker mk row.params) refl refl)
    where
      by_tests :
          (a b c : Bool)
          → audit_marker_exists true (marker row.shard row.index) table ≡ a
          → has_marker mk row.params ≡ c
          → count_marker mk (if a then table else if b then table ++ row.params ∷ [] else table) ≤ 1
      by_tests true b c x y = one
      by_tests false false c x y = one
      by_tests false true false x y = ground (arith, count_snoc mk row.params table)
      by_tests false true true x y =
          let same =
            same_word (marker row.shard row.index) mk rest (marker-NoSpace row.shard row.index) word
              (subst (λ p. has_marker mk p ≡ true) e y) in
          let none_yet =
            absent_count mk table (subst (λ m. audit_marker_exists true m table ≡ false) same x) in
          ground (arith, count_snoc mk row.params table)

  pub write_rows_once :
      (rows : List ProjectedAudit) (table : List Text)
      → All IsMarked rows
      → count_marker mk table ≤ 1
      → count_marker mk (write_rows answers written rows table) ≤ 1
  unfolding write_rows
  write_rows_once [] table a one = one
  write_rows_once (row ∷ rows) table (m, a) one =
      write_rows_once rows (write_row answers written row table) a (once row table m one)

refused :
    (answers : ℕ → Bool) (rows : List ProjectedAudit) (table : List Text)
    → write_rows answers (λ i. false) rows table ≡ table
unfolding write_rows write_row
refused answers [] table = refl
refused answers (row ∷ rows) table = ground (arith, refused answers rows table)

module _ {Value : Type 0} (op_of : List ℕ → Option (Op Value)) (show : Value → Text) where
  abbrev Marked : Option ProjectedAudit → Type 0
  Marked none = Unit
  Marked (some row) = IsMarked row

  project_op-Marked :
      (shard index : ℕ) (op : Op Value) → Marked (project_op op_of show shard index op)
  unfolding project_op base
  project_op-Marked shard index noop = tt
  project_op-Marked shard index (put key value expect_ver) = tt
  project_op-Marked shard index (delete key expect_ver) = tt
  project_op-Marked shard index (config_set config_epoch max_skew_ms) = tt
  project_op-Marked shard index (lease_purge cutoff_ms) = tt
  project_op-Marked shard index (lease_grant instance_id holder ttl_ms at_ms) = (_, refl)
  project_op-Marked shard index (lease_renew instance_id holder at_ms) = (_, refl)
  project_op-Marked shard index (lease_release instance_id holder) = (_, refl)
  project_op-Marked shard index (step_begin task_id node step idem_key) = (_, refl)
  project_op-Marked shard index (step_done task_id node step idem_key result) = (_, refl)
  project_op-Marked shard index (audit_append who instance_id action params result task_id) =
      (_, refl)

  row_of-Marked : (r : Record) → Marked (row_of op_of show r)
  unfolding row_of
  row_of-Marked r = by_payload (op_of r.payload)
    where
      by_payload : (o : Option (Op Value)) → Marked (project_by op_of show r.index o)
      by_payload none = tt
      by_payload (some op) = project_op-Marked 0 r.index op

  collect-IsMarked :
      (applied : ℕ) (rs : List Record) (left : ℕ)
      → All IsMarked (collect op_of show applied rs left)
  unfolding collect
  collect-IsMarked applied [] left = tt
  collect-IsMarked applied (r ∷ rs) left =
      by_tests (ltb applied r.index) (left == 0) (row_of op_of show r) (row_of-Marked r)
        (collect-IsMarked applied rs)
    where
      by_tests :
          (a b : Bool) (o : Option ProjectedAudit)
          → Marked o
          → ((m : ℕ) → All IsMarked (collect op_of show applied rs m))
          → All IsMarked
              (if a then [] else if b then [] else add_row o (collect op_of show applied rs) left)
      by_tests true b o m rest = tt
      by_tests false true o m rest = tt
      by_tests false false none m rest = rest left
      by_tests false false (some row) m rest = (m, rest (left - 1))

  -- Whatever the cursor says, and however often rows were written before: after the rows that are
  -- pending were written, as far as the writes succeed, no marker is in the table twice that was not
  -- there twice before, provided that the queries for the markers succeed.
  pub pending_once :
      (shard index : ℕ) (answers written : ℕ → Bool) (cursor applied limit : ℕ) (l : Log)
      (table : List Text)
      → ((i : ℕ) → answers i ≡ true)
      → count_marker (marker shard index) table ≤ 1
      → count_marker
          (marker shard index)
          (write_rows answers written (pending op_of show cursor l applied limit) table)
        ≤ 1
  unfolding pending
  pending_once shard index answers written cursor applied limit l table all_answer one =
      write_rows_once answers written (marker shard index) (marker-NoSpace shard index) all_answer
        (collect op_of show applied (entries_from l (cursor + 1)) limit) table
        (collect-IsMarked applied (entries_from l (cursor + 1)) limit) one

committed :
    (upto : ℕ) (disk : Bool) (p : Projector)
    → p.cursor < upto
    → (commit upto disk p).0.cursor ≡ upto
unfolding commit
committed upto true p h = ground arith
committed upto false p h = ground arith

-- When the table refuses every row of a round, the table is as before and the cursor still goes to the
-- last of the rows, whether or not the queries for the markers succeed.
pub sink_round_lost :
    (rows : List ProjectedAudit) (row : ProjectedAudit) (p : Projector) (table : List Text)
    (answers : ℕ → Bool) (disk : Bool)
    → last? rows ≡ some row
    → p.cursor < row.index
    → ((sink_round answers (λ i. false) disk rows p table).0.cursor ≡ row.index)
      × ((sink_round answers (λ i. false) disk rows p table).1 ≡ table)
unfolding sink_round
sink_round_lost rows row p table answers disk e past = (
  ap (λ o. (commit_last o disk p).cursor) e ∙ committed row.index disk p past,
  refused answers rows table,
)
