-- ===== src/State/Apply/Image.antt =====
-- src/ha/state.rs: the image of a state machine in a snapshot. The JSON form (serde_json) is a
-- parameter.
use rdsctl.Base.{Text, ℕ, ◌≡◌, refl, sym, ap, ◌∙◌, List, [], ◌∷◌, ◌++◌, arith}
use rdsctl.Base.Map.{Map}
use rdsctl.State.{KvEntry, Lease, StepRecord, AuditRow, Op, put, StateMachine, new}
use rdsctl.State.Apply.{apply}
use rdsctl.State.Run.{Committed, apply_all, apply_all-append}

pub record StateImage (Value : Type 0) : Type 0 where
  pub shard : ℕ
  pub config_epoch : ℕ
  pub max_skew_ms : ℕ
  pub applied_index : ℕ
  pub applied_term : ℕ
  pub audit_seq : ℕ
  pub kv : Map Text (KvEntry Value)
  pub leases : Map Text Lease
  pub steps : Map Text (StepRecord Value)
  pub audit_tail : List AuditRow

module _ {Value : Type 0} where
  -- `to_image` and `from_image`.
  unfoldable pub to_image : StateMachine Value → StateImage Value
  to_image s = record {
    shard = s.shard;
    config_epoch = s.config_epoch;
    max_skew_ms = s.max_skew_ms;
    applied_index = s.applied_index;
    applied_term = s.applied_term;
    audit_seq = s.audit_seq;
    kv = s.kv;
    leases = s.leases;
    steps = s.steps;
    audit_tail = s.audit_tail;
  }

  unfoldable pub from_image : StateImage Value → StateMachine Value
  from_image img = record {
    shard = img.shard;
    config_epoch = img.config_epoch;
    max_skew_ms = img.max_skew_ms;
    applied_index = img.applied_index;
    applied_term = img.applied_term;
    audit_seq = img.audit_seq;
    kv = img.kv;
    leases = img.leases;
    steps = img.steps;
    audit_tail = img.audit_tail;
    audit_tail_cap = 2000;
  }

  -- No operation changes the capacity of the audit tail or the shard.
  apply_constants :
      (term index : ℕ) (op : Op Value) (s : StateMachine Value)
      → ((apply term index op s).0.audit_tail_cap ≡ s.audit_tail_cap)
        × ((apply term index op s).0.shard ≡ s.shard)
  unfolding apply
  apply_constants term index (put k v e) s = ground arith
  apply_constants term index _ s = ground arith

  apply_all_constants :
      (cs : List (Committed Value)) (s : StateMachine Value)
      → ((apply_all cs s).audit_tail_cap ≡ s.audit_tail_cap) × ((apply_all cs s).shard ≡ s.shard)
  unfolding apply_all
  apply_all_constants [] s = (refl, refl)
  apply_all_constants (c ∷ cs) s =
      let ih = apply_all_constants cs (apply c.term c.index c.op s).0 in
      let here = apply_constants c.term c.index c.op s in (ih.0 ∙ here.0, ih.1 ∙ here.1)

  image_round_trip :
      (s : StateMachine Value) → s.audit_tail_cap ≡ 2000 → from_image (to_image s) ≡ s
  unfolding from_image to_image
  image_round_trip s e = ground arith

  -- Replaying from a snapshot is replaying from the start: a replica that restores the image taken
  -- after any prefix of the log, and applies the rest, reaches the state of one that applied it all.
  pub restore_then_apply :
      (shard skew : ℕ) (before after : List (Committed Value))
      → apply_all after (from_image (to_image (apply_all before (new shard skew))))
        ≡ apply_all (before ++ after) (new shard skew)
  restore_then_apply shard skew before after =
      ap (apply_all after) (
        image_round_trip (apply_all before (new shard skew))
          ((apply_all_constants before (new shard skew)).0 ∙ unfold new in refl))
      ∙ sym (apply_all-append before after (new shard skew))
