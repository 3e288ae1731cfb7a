-- ===== src/State/Kv/Versions.antt =====
-- src/ha/state.rs: compare-and-set on versioned keys.
use rdsctl.Base.{
  if◌then◌else◌, length, All, u64_mod, Text, text_eq, text_eq_iff, text_eq_refl, is_blank, ℕ, ◌+◌,
  ◌≤◌, ◌<◌, ◌≡◌, sym, ◌≢◌, ◌↔◌, Bool, false, Option, none, some, List, [], ◌∷◌, arith, text_key,
}
use rdsctl.Base.Map
use rdsctl.Base.Map.{Map, get-insert, get-remove}
use rdsctl.State.{ok, KvEntry, Op, noop, put, delete, StateMachine}
use rdsctl.State.Apply.{apply}
use rdsctl.State.Run.{Committed, apply_all}
use rdsctl.State.Kv.{next_ver, apply_put, apply_delete, put_check, put_checked}

module _ {Value : Type 0} where
  -- What an expected version asks of the key's entry: 0 asks that there is none.
  abbrev pub Expects : Option (KvEntry Value) → Option ℕ → Type 0
  Expects entry none = Unit
  Expects none (some expect) = expect ≡ 0
  Expects (some cur) (some expect) = cur.ver ≡ expect

  put_check_iff :
      (key : Text) (entry : Option (KvEntry Value)) (expect : Option ℕ)
      → (put_check key entry expect ≡ none) ↔ Expects entry expect
  unfolding put_check
  put_check_iff key none none = ground arith
  put_check_iff key none (some e) = ground arith
  put_check_iff key (some cur) none = ground arith
  put_check_iff key (some cur) (some e) = ground arith

  -- A write is applied exactly when the key is not blank and the expected version, if there is one,
  -- is that of the entry, or 0 where there is no entry.
  pub put_iff :
      (key : Text) (v : Value) (expect : Option ℕ) (index : ℕ) (s : StateMachine Value)
      → ((apply_put key v expect index s).1 ≡ ok)
        ↔ ((is_blank key ≡ false) × Expects (Map.get key s.kv) expect)
  unfolding apply_put
  put_iff key v expect index s = ground (arith, put_check_iff key (Map.get key s.kv) expect)

  -- After an applied write the key has the value under the next version, the first being 1, and the
  -- position of the write; every other key has the entry that it had.
  pub get-put :
      (key other_key : Text) (v : Value) (expect : Option ℕ) (index : ℕ) (s : StateMachine Value)
      → (apply_put key v expect index s).1 ≡ ok
      → Map.get other_key (apply_put key v expect index s).0.kv ≡ (
          if text_eq key other_key
          then some (record { value = v; ver = next_ver (Map.get key s.kv); updated_index = index })
          else Map.get other_key s.kv)
  unfolding apply_put put_checked
  get-put key other_key v expect index s h = ground (
    arith,
    get-insert key other_key
        (record { value = v; ver = next_ver (Map.get key s.kv); updated_index = index }) s.kv,
  )

  abbrev ver_of : Option (KvEntry Value) → ℕ
  ver_of none = 0
  ver_of (some e) = e.ver

  -- The version of a key, 0 where there is no entry.
  abbrev pub version : Text → StateMachine Value → ℕ
  version key s = ver_of (Map.get key s.kv)

  abbrev deletes : Text → Op Value → Bool
  deletes key (delete k expect) = text_eq k key
  deletes key _ = false

  version-put :
      (key k : Text) (v : Value) (expect : Option ℕ) (index : ℕ) (s : StateMachine Value)
      → version key s + 1 < u64_mod
      → (version key s ≤ version key (apply_put k v expect index s).0)
        × (version key (apply_put k v expect index s).0 ≤ version key s + 1)
  unfolding apply_put put_checked next_ver
  version-put key k v expect index s h = ground (
    arith,
    get-insert k key (record { value = v; ver = next_ver (Map.get k s.kv); updated_index = index })
        s.kv,
    text_eq_iff k key,
  )

  version-delete :
      (key k : Text) (expect : Option ℕ) (s : StateMachine Value)
      → text_eq k key ≡ false
      → version key (apply_delete k expect s).0 ≡ version key s
  unfolding apply_delete
  version-delete key k expect s h = ground (arith, get-remove k key s.kv)

  version-apply :
      (key : Text) (term index : ℕ) (op : Op Value) (s : StateMachine Value)
      → deletes key op ≡ false
      → version key s + 1 < u64_mod
      → (version key s ≤ version key (apply term index op s).0)
        × (version key (apply term index op s).0 ≤ version key s + 1)
  unfolding apply
  version-apply key term index noop s d h = omega arith
  version-apply key term index (put k v expect) s d h = version-put key k v expect index s h
  version-apply key term index (delete k expect) s d h =
      ground (arith, version-delete key k expect s d)
  version-apply key term index _ s d h = ground arith

  version-apply_all :
      (key : Text) (cs : List (Committed Value)) (s : StateMachine Value)
      → All (λ c. deletes key c.op ≡ false) cs
      → version key s + length cs < u64_mod
      → version key s ≤ version key (apply_all cs s)
  unfolding apply_all
  version-apply_all key [] s d h = omega arith
  version-apply_all key (c ∷ cs) s d h = omega (
    arith,
    version-apply key c.term c.index c.op s d.0 (omega arith),
    version-apply_all key cs (apply c.term c.index c.op s).0 d.1
        (omega (arith, version-apply key c.term c.index c.op s d.0 (omega arith))),
  )

  Expects-version :
      (entry : Option (KvEntry Value)) (e : ℕ) → Expects entry (some e) → e ≡ ver_of entry
  Expects-version none e h = h
  Expects-version (some cur) e h = sym h

  version-put_self :
      (key : Text) (v : Value) (expect : Option ℕ) (index : ℕ) (s : StateMachine Value)
      → (apply_put key v expect index s).1 ≡ ok
      → version key s + 1 < u64_mod
      → version key (apply_put key v expect index s).0 ≡ version key s + 1
  version-put_self key v expect index s h bound =
      unfold next_ver in ground (arith, get-put key key v expect index s h, text_eq_refl key)

  -- No lost update: once a write of a key was applied, a second write that expects the version which
  -- the first one saw, or an earlier one, is not applied, whatever committed operations lie between
  -- the two, as long as none of them deletes the key (versions do not wrap around).
  pub stale_put_refused :
      (key : Text) (v w : Value) (expect : Option ℕ) (seen index later : ℕ) (s : StateMachine Value)
      (cs : List (Committed Value))
      → (apply_put key v expect index s).1 ≡ ok
      → seen ≤ version key s
      → All (λ c. deletes key c.op ≡ false) cs
      → version key s + 1 + length cs < u64_mod
      → (apply_put key w (some seen) later (apply_all cs (apply_put key v expect index s).0)).1 ≢ ok
  stale_put_refused key v w expect seen index later s cs first old kept bound second =
      let s' = (apply_put key v expect index s).0 in
      let e = version-put_self key v expect index s first (omega arith) in
      omega (
        arith,
        e,
        version-apply_all key cs s' kept (omega (arith, e)),
        Expects-version (Map.get key (apply_all cs s').kv) seen
            ((put_iff key w (some seen) later (apply_all cs s')).0 second).1,
      )
