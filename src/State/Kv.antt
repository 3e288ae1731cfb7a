-- ===== src/State/Kv.antt =====
-- src/ha/state.rs: the versioned keys and values; `Op::Put` and `Op::Delete`.
pub mod Versions
use rdsctl.Base.{
  ◌==◌, if◌then◌else◌, add64, Text, codes, is_blank, ℕ, Option, none, some, ◌++◌, text_key,
}
use rdsctl.Base.Decimal
use rdsctl.Base.Map
use rdsctl.State.{
  Reject, version_conflict, not_found, invalid, Applied, ok, rejected, KvEntry, StateMachine,
}

-- `tap_expect`: the refusal names the version that was expected.
abbrev tap_expect : Text → ℕ → Text
tap_expect key expect = key ++ codes "(期望版本 " ++ Decimal.display expect ++ codes ")"

module _ {Value : Type 0} where
  -- The match on the current entry and the expected version; `none` lets the write pass.
  put_check : Text → Option (KvEntry Value) → Option ℕ → Option Reject
  put_check key none none = none
  put_check key none (some expect) =
      if expect == 0 then none else some (not_found (tap_expect key expect))
  put_check key (some cur) none = none
  put_check key (some cur) (some expect) =
      if cur.ver == expect then none else some (version_conflict key expect cur.ver)

  unfoldable pub next_ver : Option (KvEntry Value) → ℕ
  next_ver none = 1
  next_ver (some e) = add64 e.ver 1

  put_checked :
      Option Reject → Text → Value → ℕ → StateMachine Value → StateMachine Value × Applied Value
  unfolding next_ver
  put_checked (some r) key value index s = (s, rejected r)
  put_checked none key value index s = (record s { kv = Map.insert key entry s.kv }, ok)
    where
      entry : KvEntry Value
      entry = record { value = value; ver = next_ver (Map.get key s.kv); updated_index = index }

  unfoldable pub apply_put :
      Text → Value → Option ℕ → ℕ → StateMachine Value → StateMachine Value × Applied Value
  unfolding put_check put_checked
  apply_put key value expect_ver index s =
      if is_blank key
      then (s, rejected (invalid (codes "key 为空")))
      else put_checked (put_check key (Map.get key s.kv) expect_ver) key value index s

  delete_found :
      Option (KvEntry Value)
      → Text
      → Option ℕ
      → StateMachine Value
      → StateMachine Value × Applied Value
  delete_found none key expect_ver s = (s, rejected (not_found key))
  delete_found (some cur) key none s = (record s { kv = Map.remove key s.kv }, ok)
  delete_found (some cur) key (some expect) s =
      if cur.ver == expect
      then (record s { kv = Map.remove key s.kv }, ok)
      else (s, rejected (version_conflict key expect cur.ver))

  unfoldable pub apply_delete :
      Text → Option ℕ → StateMachine Value → StateMachine Value × Applied Value
  unfolding delete_found
  apply_delete key expect_ver s = delete_found (Map.get key s.kv) key expect_ver s
