-- ===== src/Fence/Guard/Accepts.antt =====
-- src/ha/fence.rs: what one command does to the fences that the files of the keys hold.
use mathlib.Core.Bool.{false≢true}
use rdsctl.Base.{
  ◌==◌, if◌then◌else◌, Bool-cases, take, Text, text_eq, text_eq_iff, ◌≡◌, refl, subst, ◌∙◌, ◌≢◌,
  ◌↔◌, ◌⊎◌, inl, inr, Bool, true, false, not, Option, none, some, [], ◌∷◌, ◌++◌, arith,
}
use rdsctl.Base.Map.{get-insert, get-remove, get-insert_self}
use rdsctl.Fence.{Fence, fence_eq, fence_lt, fence_lt_irrefl, fence_ge_trans, fence_eq_iff}
use rdsctl.Fence.Wire
use rdsctl.Fence.Wire.{IsWord, parse-wire, trim-wire_line}
use rdsctl.Fence.Guard.{
  Outcome, written, failed_before, failed_between, failed_after, shard_differs, below_seen, Guard,
  safe_key, tmp_name, held, seen, check_and_raise, leave_tmp, map_err, raise, replace_file,
  write_seen,
}

-- After a write the key's file holds the fence.
held-replace_file :
    (g : Guard) (key : Text) (f : Fence)
    → IsWord f
    → held (replace_file g (safe_key key) (Wire.wire f ++ 10 ∷ [])) key ≡ some f
unfolding held replace_file
held-replace_file g key f w = rw (get-insert_self, trim-wire_line) (parse-wire f w)

-- The fence seen later is of the same shard and not below the one seen earlier.
abbrev pub NotBelow : Option Fence → Option Fence → Type 0
NotBelow none later = Unit
NotBelow (some s) none = ⊥
NotBelow (some s) (some t) = (s.shard ≡ t.shard) × (fence_lt t s ≡ false)

pub NotBelow-refl : (o : Option Fence) → NotBelow o o
NotBelow-refl none = tt
NotBelow-refl (some s) = (refl, fence_lt_irrefl s)

pub NotBelow-trans : (o p q : Option Fence) → NotBelow o p → NotBelow p q → NotBelow o q
NotBelow-trans none p q h k = tt
NotBelow-trans (some s) none q h k = absurd h
NotBelow-trans (some s) (some t) none h k = absurd k
NotBelow-trans (some s) (some t) (some u) h k = (h.0 ∙ k.0, fence_ge_trans s t u h.1 k.1)

-- The admission test of `check_and_raise`, as a specification: a fence is admitted by a key that
-- has seen none, or one of the same shard that is not above it.
abbrev pub Admits : Option Fence → Fence → Type 0
Admits seen_before f = NotBelow seen_before (some f)

raise_accepts :
    (g : Guard) (key : Text) (f : Fence) (out : Outcome) (o : Option Fence)
    → (raise g key f out o).1 ≡ none
    → Admits o f
unfolding raise
raise_accepts g key f out none h = tt
raise_accepts g key f out (some s) h = ground arith

held-raise-none :
    (g : Guard) (key : Text) (f : Fence) (out : Outcome)
    → IsWord f
    → (raise g key f out none).1 ≡ none
    → held (raise g key f out none).0 key ≡ some f
unfolding raise
held-raise-none g key f written w h = held-replace_file g key f w
held-raise-none g key f (failed_before x) w h = cc
held-raise-none g key f (failed_between k x) w h = cc
held-raise-none g key f (failed_after x) w h = cc

held-raise :
    (g : Guard) (key : Text) (f : Fence) (out : Outcome) (o : Option Fence)
    → IsWord f
    → held g key ≡ o
    → (raise g key f out o).1 ≡ none
    → held (raise g key f out o).0 key ≡ some f
unfolding raise
held-raise g key f out none w e h = held-raise-none g key f out w h
held-raise g key f out (some s) w e h =
    ground (arith, fence_eq_iff f s, held-replace_file g key f w)

-- An accepted command whose fence fits its types was admitted by the fence that was read, and its
-- own fence is the one that the file holds afterwards, even where the file could not be read.
pub check_and_raise_accepts :
    (g : Guard) (key : Text) (f : Fence) (readable : Bool) (out : Outcome)
    → IsWord f
    → (check_and_raise g key f readable out).1 ≡ none
    → Admits (seen readable g key) f × (held (check_and_raise g key f readable out).0 key ≡ some f)
unfolding check_and_raise seen
check_and_raise_accepts g key f true out w h =
    (raise_accepts g key f out (held g key) h, held-raise g key f out (held g key) w refl h)
check_and_raise_accepts g key f false out w h = (tt, held-raise-none g key f out w h)

raise-Admits :
    (g : Guard) (key : Text) (f : Fence) (o : Option Fence)
    → Admits o f
    → (raise g key f written o).1 ≡ none
unfolding raise
raise-Admits g key f none h = refl
raise-Admits g key f (some s) h = ground arith

-- While the disk reads and writes, a command is accepted exactly when its fence is admitted.
pub check_and_raise_iff :
    (g : Guard) (key : Text) (f : Fence)
    → ((check_and_raise g key f true written).1 ≡ none) ↔ Admits (held g key) f
unfolding check_and_raise seen
check_and_raise_iff g key f =
    (raise_accepts g key f written (held g key), raise-Admits g key f (held g key))

-- What a command may leave of the guard: nothing is written, a fence that the read one admits is,
-- or only the temporary file is.
data Left (g : Guard) (k : Text) (f : Fence) (o : Option Fence) : Guard → Type 0 where
  unchanged : Left g k f o g
  replaced : Admits o f → Left g k f o (replace_file g (safe_key k) (Wire.wire f ++ 10 ∷ []))
  spoiled : (content : Text) → Left g k f o (leave_tmp g (safe_key k) content)

Left-write :
    (g : Guard) (key : Text) (f : Fence) (out : Outcome) (o : Option Fence)
    → Admits o f
    → Left g key f o (map_err key o f (write_seen g key f out)).0
unfolding write_seen
Left-write g key f written o a = replaced a
Left-write g key f (failed_before x) o a = unchanged
Left-write g key f (failed_between k x) o a = spoiled (take k (Wire.wire f ++ 10 ∷ []))
Left-write g key f (failed_after x) o a = replaced a

raise-Left :
    (g : Guard) (key : Text) (f : Fence) (out : Outcome) (o : Option Fence)
    → Left g key f o (raise g key f out o).0
unfolding raise
raise-Left g key f out none = Left-write g key f out none tt
raise-Left g key f out (some s) =
    by_tests (s.shard == f.shard) (fence_lt f s) (fence_eq f s) refl refl
  where
    by_tests :
        (a b c : Bool)
        → (s.shard == f.shard) ≡ a
        → fence_lt f s ≡ b
        → Left g key f
            (some s)
            (if not a
              then (
                g,
                some (record {
                  key = key;
                  seen_fence = some s;
                  incoming = f;
                  reason = shard_differs;
                }),
              )
              else if b
              then (
                g,
                some (record { key = key; seen_fence = some s; incoming = f; reason = below_seen }),
              )
              else if c
              then (g, none)
              else map_err key (some s) f (write_seen g key f out)).0
    by_tests false b c x y = unchanged
    by_tests true true c x y = unchanged
    by_tests true false true x y = unchanged
    by_tests true false false x y = Left-write g key f out (some s) (ground arith, y)

-- What a write to the file of `k` does to what `j` has seen, unless the temporary file of `k` is the
-- file of `j`.
held-replace_other :
    (g : Guard) (k j : Text) (f : Fence)
    → IsWord f
    → tmp_name (safe_key k) ≢ safe_key j
    → held (replace_file g (safe_key k) (Wire.wire f ++ 10 ∷ [])) j
      ≡ (if text_eq (safe_key k) (safe_key j) then some f else held g j)
unfolding held replace_file
held-replace_other g k j f w apart =
    rw (get-insert, get-remove)
      (ground
        (arith, text_eq_iff (tmp_name (safe_key k)) (safe_key j), trim-wire_line f, parse-wire f w))

-- A temporary file that is left behind, unless it is the file of `j`.
held-leave_tmp :
    (g : Guard) (k j : Text) (content : Text)
    → tmp_name (safe_key k) ≢ safe_key j
    → held (leave_tmp g (safe_key k) content) j ≡ held g j
unfolding held leave_tmp
held-leave_tmp g k j content apart =
    rw get-insert (ground (arith, text_eq_iff (tmp_name (safe_key k)) (safe_key j)))

held_same_file : (g : Guard) (k j : Text) → safe_key k ≡ safe_key j → held g k ≡ held g j
unfolding held
held_same_file g k j e = rw e

-- The file of `j`, where it is the file of the command, can be read.
abbrev pub CanRead : Text → Text → Bool → Type 0
CanRead j k readable = safe_key k ≢ safe_key j ⊎ (readable ≡ true)

NotBelow-write :
    (g : Guard) (k j : Text) (f : Fence) (readable : Bool)
    → CanRead j k readable
    → Admits (seen readable g k) f
    → NotBelow (held g j) (if text_eq (safe_key k) (safe_key j) then some f else held g j)
unfolding seen
NotBelow-write g k j f readable r a = elim (Bool-cases (text_eq (safe_key k) (safe_key j))) [
  | inl e ↦ rw e (same ((text_eq_iff _ _).0 e) readable r a)
  | inr e ↦ rw e (NotBelow-refl (held g j))
]
  where
    same :
        safe_key k ≡ safe_key j
        → (b : Bool) → CanRead j k b
        → Admits (seen b g k) f
        → NotBelow (held g j) (some f)
    same e b (inl differ) h = absurd (differ e)
    same e true (inr can) h = subst (λ o. Admits o f) (held_same_file g k j e) h
    same e false (inr can) h = absurd (false≢true can)

-- Whatever command comes, and whatever the disk does to its write, no key's file holds a lower fence
-- than before, unless the command's temporary file is that file, or it is the command's own and could
-- not be read.
pub check_and_raise-NotBelow :
    (g : Guard) (k j : Text) (f : Fence) (readable : Bool) (out : Outcome)
    → IsWord f
    → tmp_name (safe_key k) ≢ safe_key j
    → CanRead j k readable
    → NotBelow (held g j) (held (check_and_raise g k f readable out).0 j)
unfolding check_and_raise
check_and_raise-NotBelow g k j f readable out w apart can_read =
    by_left (raise g k f out (seen readable g k)).0 (raise-Left g k f out (seen readable g k))
  where
    by_left : (h : Guard) → Left g k f (seen readable g k) h → NotBelow (held g j) (held h j)
    by_left h unchanged = NotBelow-refl (held g j)
    by_left h (replaced a) =
        rw (held-replace_other g k j f w apart) (NotBelow-write g k j f readable can_read a)
    by_left h (spoiled content) = rw (held-leave_tmp g k j content apart) (NotBelow-refl (held g j))
