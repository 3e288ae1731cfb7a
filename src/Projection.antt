-- ===== src/Projection.antt =====
-- src/ha/projection.rs, and the round of src/main.rs that writes what it tells to the audit table. JSON
-- is an argument: `op_of` reads an operation, `show` is `Value::to_string`.
pub mod Laws
pub mod Sink
pub mod Once
use rdsctl.Base.{
  ltb, leb, ◌==◌, if◌then◌else◌, unwrap_or, length, take, Text, codes, trim, ℕ, ◌+◌, ◌-◌, ◌^◌, Bool,
  true, false, Option, none, some, List, [], ◌∷◌, ◌++◌,
}
use rdsctl.Base.Decimal.{display, parse}
use rdsctl.Errors.{HaError, io}
use rdsctl.Log.{Record, Log, entries_from}
use rdsctl.State.{
  Op, noop, put, delete, config_set, lease_grant, lease_renew, lease_release, lease_purge,
  step_begin, step_done, audit_append,
}

-- `marker`.
unfoldable pub marker : ℕ → ℕ → Text
marker shard index = codes "proj:" ++ (display shard ++ (codes ":" ++ display index))

pub record ProjectedAudit : Type 0 where
  pub shard : ℕ
  pub index : ℕ
  pub who : Text
  pub instance_id : Text
  pub action : Text
  pub params : Text
  pub result : Text
  pub task_id : Text

-- The row of an operation, before its result is known to be another.
unfoldable pub base : ℕ → ℕ → Text → Text → Text → Text → Text → ProjectedAudit
unfolding marker
base shard index instance_id action params who task = record {
  shard = shard;
  index = index;
  who = who;
  instance_id = instance_id;
  action = action;
  params = marker shard index ++ (codes " " ++ params);
  result = codes "ok";
  task_id = task;
}

abbrev pub with_result : ProjectedAudit → Text → ProjectedAudit
with_result r t = record r { result = t }

abbrev pub step_params : Text → Text → ℕ → Text → Text
step_params task node step idem_key =
    codes "task="
    ++ (task
        ++ (codes " node="
            ++ (node ++ (codes " step=" ++ (display step ++ (codes " idem=" ++ idem_key))))))

abbrev pub add_row : Option ProjectedAudit → (ℕ → List ProjectedAudit) → ℕ → List ProjectedAudit
add_row none rest left = rest left
add_row (some row) rest left = row ∷ rest (left - 1)

module _ {Value : Type 0} (op_of : List ℕ → Option (Op Value)) (show : Value → Text) where
  unfoldable pub truncate : Value → ℕ → Text
  truncate v n = let s = show v in if leb (length s) n then s else take n s ++ codes "…"

  -- The decisions among the operations have a row.
  unfoldable pub project_op : ℕ → ℕ → Op Value → Option ProjectedAudit
  unfolding base truncate
  project_op shard index noop = none
  project_op shard index (put key value expect_ver) = none
  project_op shard index (delete key expect_ver) = none
  project_op shard index (config_set config_epoch max_skew_ms) = none
  project_op shard index (lease_purge cutoff_ms) = none
  project_op shard index (lease_grant instance_id holder ttl_ms at_ms) = some (
      base shard index instance_id (codes "lease_grant")
        (codes "holder="
          ++ (holder
              ++ (codes " ttl_ms=" ++ (display ttl_ms ++ (codes " at_ms=" ++ display at_ms)))))
        holder [])
  project_op shard index (lease_renew instance_id holder at_ms) = some (
      base shard index instance_id (codes "lease_renew")
        (codes "holder=" ++ (holder ++ (codes " at_ms=" ++ display at_ms))) holder [])
  project_op shard index (lease_release instance_id holder) =
      some
        (base shard index instance_id (codes "lease_release") (codes "holder=" ++ holder) holder [])
  project_op shard index (step_begin task_id node step idem_key) = some (
      base shard index [] (codes "step_begin") (step_params task_id node step idem_key)
        (codes "controller") task_id)
  project_op shard index (step_done task_id node step idem_key result) = some (
      base shard index [] (codes "step_done")
        (step_params task_id node step idem_key ++ (codes " result=" ++ truncate result 120))
        (codes "controller") task_id)
  project_op shard index (audit_append who instance_id action params result task_id) =
      some (with_result (base shard index instance_id action params who task_id) result)

  abbrev pub project_by : ℕ → Option (Op Value) → Option ProjectedAudit
  project_by index none = none
  project_by index (some op) = project_op 0 index op

  -- The row of a record; a payload that does not parse is passed over.
  unfoldable pub row_of : Record → Option ProjectedAudit
  unfolding project_op
  row_of r = project_by r.index (op_of r.payload)

  -- The loop of `pending`, with the rows that may still be added.
  unfoldable pub collect : ℕ → List Record → ℕ → List ProjectedAudit
  unfolding row_of
  collect applied [] left = []
  collect applied (r ∷ rs) left =
      let rest = add_row (row_of r) (collect applied rs) left in
      if ltb applied r.index then [] else if left == 0 then [] else rest

  -- `cursor` is that of the projector.
  unfoldable pub pending : ℕ → Log → ℕ → ℕ → List ProjectedAudit
  unfolding collect
  pending cursor log applied limit = collect applied (entries_from log (cursor + 1)) limit

-- `Projector`: the cursor in memory and the text of its file.
pub record Projector : Type 0 where
  pub cursor_file : Option Text
  pub cursor : ℕ

abbrev pub u64_max : ℕ
u64_max = 2 ^ 64 - 1

abbrev pub parsed : Option Text → Option ℕ
parsed none = none
parsed (some t) = parse u64_max (trim t)

unfoldable pub open_cursor : Option Text → Projector
open_cursor file = record { cursor_file = file; cursor = unwrap_or (parsed file) 0 }

-- `save`; a write that fails leaves the file.
unfoldable pub save : Bool → Projector → Projector × Option HaError
save true p = (record p { cursor_file = some (display p.cursor ++ 10 ∷ []) }, none)
save false p = (p, some io)

unfoldable pub reset : ℕ → Bool → Projector → Projector × Option HaError
unfolding save
reset from disk p = save disk (record p { cursor = from })

unfoldable pub commit : ℕ → Bool → Projector → Projector × Option HaError
unfolding save
commit upto disk p = if ltb p.cursor upto then save disk (record p { cursor = upto }) else (p, none)
