-- ===== src/Fence/Guard/Keeps.antt =====
-- src/ha/fence.rs: what `check_and_raise` guarantees over several commands.
use rdsctl.Base.{
  All, Text, ◌≡◌, refl, subst, ◌≢◌, Bool, true, false, Option, none, some, List, [], ◌∷◌, arith,
}
use rdsctl.Fence.{Fence, fence_lt, fence_lt_irrefl, fence_lt_ge_trans, fence_eq_iff}
use rdsctl.Fence.Wire.{IsWord}
use rdsctl.Fence.Guard.Accepts.{
  NotBelow, NotBelow-refl, NotBelow-trans, Admits, check_and_raise_accepts, CanRead,
  check_and_raise-NotBelow,
}
use rdsctl.Fence.Guard.{
  Outcome, written, Guard, safe_key, tmp_name, held, seen, check_and_raise, raise, write_seen,
}

-- The commands that reach a host, with what the disk does to each.
pub record Command : Type 0 where
  pub key : Text
  pub fence : Fence
  pub readable : Bool
  pub outcome : Outcome

unfoldable pub run : Guard → List Command → Guard
run g [] = g
run g (c ∷ cs) = run (check_and_raise g c.key c.fence c.readable c.outcome).0 cs

-- A command with a fence of machine words, whose temporary file is not the file of `j`, and which can
-- read the file of `j` if that is its own.
abbrev pub Apart : Text → Command → Type 0
Apart j c = IsWord c.fence × (tmp_name (safe_key c.key) ≢ safe_key j) × CanRead j c.key c.readable

pub run-NotBelow :
    (g : Guard) (j : Text) (cs : List Command)
    → All (Apart j) cs
    → NotBelow (held g j) (held (run g cs) j)
unfolding run
run-NotBelow g j [] h = NotBelow-refl (held g j)
run-NotBelow g j (c ∷ cs) h =
    NotBelow-trans (held g j) (held (check_and_raise g c.key c.fence c.readable c.outcome).0 j) _
      (check_and_raise-NotBelow g c.key j c.fence c.readable c.outcome h.0.0 h.0.1 h.0.2)
      (run-NotBelow (check_and_raise g c.key c.fence c.readable c.outcome).0 j cs h.1)

below_not_admitted :
    (o : Option Fence) (f stale : Fence)
    → NotBelow (some f) o
    → fence_lt stale f ≡ true
    → Admits o stale
    → ⊥
below_not_admitted none f stale h l a = h
below_not_admitted (some s) f stale h l a = cc (fence_lt_ge_trans stale f s l h.1, a.1)

-- The zombie holder, for commands that a host handles one after the other: once a command with the
-- fence `f` was accepted for a key, then after any further commands, for that key or for others,
-- every command for it with a fence below `f` is refused. The fields of all fences fit their types,
-- no further command has the file of this key as its temporary file, and neither the late command nor
-- any further one for this file fails to read it; writes may fail.
pub stale_refused :
    (g : Guard) (key : Text) (f stale : Fence) (readable : Bool) (out late : Outcome)
    (cs : List Command)
    → IsWord f
    → IsWord stale
    → All (Apart key) cs
    → (check_and_raise g key f readable out).1 ≡ none
    → fence_lt stale f ≡ true
    → (check_and_raise (run (check_and_raise g key f readable out).0 cs) key stale true late).1
      ≢ none
unfolding seen
stale_refused g key f stale readable out late cs w ws apart accepted below admitted =
    let g' = (check_and_raise g key f readable out).0 in
    below_not_admitted (held (run g' cs) key) f stale
      (subst (λ o. NotBelow o (held (run g' cs) key))
        (check_and_raise_accepts g key f readable out w accepted).1 (run-NotBelow g' key cs apart))
      below (check_and_raise_accepts (run g' cs) key stale true late ws admitted).0

-- A command whose fence fits its types, once accepted, is accepted again, and writes nothing, if the
-- file can be read.
pub check_and_raise_again :
    (g : Guard) (key : Text) (f : Fence) (readable : Bool) (out late : Outcome)
    → IsWord f
    → (check_and_raise g key f readable out).1 ≡ none
    → check_and_raise (check_and_raise g key f readable out).0 key f true late
      ≡ ((check_and_raise g key f readable out).0, none)
check_and_raise_again g key f readable out late w accepted =
    again (check_and_raise g key f readable out).0
      (check_and_raise_accepts g key f readable out w accepted).1
  where
    again : (h : Guard) → held h key ≡ some f → check_and_raise h key f true late ≡ (h, none)
    again h e =
        unfold check_and_raise raise seen in
        rw e (ground (arith, fence_lt_irrefl f, fence_eq_iff f f))

-- The file of a key holds a fence above `stale`, so that a command with `stale` is refused while the
-- file can be read, whatever its write would do. When the file cannot be read, the same command is
-- accepted as soon as its write succeeds; its fence is then the one that the file holds, and the
-- command is accepted from then on.
pub unreadable_accepted :
    (g : Guard) (key : Text) (f stale : Fence) (late : Outcome)
    → IsWord stale
    → held g key ≡ some f
    → fence_lt stale f ≡ true
    → ((check_and_raise g key stale true late).1 ≢ none)
      × ((check_and_raise g key stale false written).1 ≡ none)
      × (held (check_and_raise g key stale false written).0 key ≡ some stale)
      × (check_and_raise (check_and_raise g key stale false written).0 key stale true late
          ≡ ((check_and_raise g key stale false written).0, none))
unreadable_accepted g key f stale late w e below =
    let passes : (check_and_raise g key stale false written).1 ≡ none =
      unfold check_and_raise raise seen write_seen in refl in
    (
      λ accepted.
          below_not_admitted (held g key) f stale (rw e (NotBelow-refl (some f))) below
            (unfold seen in (check_and_raise_accepts g key stale true late w accepted).0),
      passes,
      (check_and_raise_accepts g key stale false written w passes).1,
      check_and_raise_again g key stale false written late w passes,
    )
