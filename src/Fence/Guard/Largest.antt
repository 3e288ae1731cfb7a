-- ===== src/Fence/Guard/Largest.antt =====
-- src/ha/fence.rs: `seen_max`.
use rdsctl.Base.{
  Bool-cases, Text, text_eq, ◌≡◌, refl, inl, inr, true, false, Option, none, some, [], ◌∷◌, arith,
  text_key,
}
use rdsctl.Base.Map
use rdsctl.Base.Map.{Map}
use rdsctl.Fence.{Fence, fence_lt, fence_lt_irrefl}
use rdsctl.Fence.Guard.{Guard, held, seen_max, fence_max, max_from, parse_file}

-- The optional fence is not below `f`.
abbrev Covers : Fence → Option Fence → Type 0
Covers f none = ⊥
Covers f (some m) = fence_lt m f ≡ false

Covers-max_left : (f : Fence) (m o : Option Fence) → Covers f m → Covers f (fence_max m o)
Covers-max_left f none o h = absurd h
Covers-max_left f (some m) none h = h
Covers-max_left f (some m) (some g) h = unfold fence_lt in ground arith

Covers-max_right : (f : Fence) (m : Option Fence) → Covers f (fence_max m (some f))
Covers-max_right f none = fence_lt_irrefl f
Covers-max_right f (some m) = unfold fence_lt in ground arith

Covers-max_from :
    (f : Fence) (files : Map Text Text) (m : Option Fence)
    → Covers f m
    → Covers f (max_from m files)
unfolding max_from
Covers-max_from f [] m h = h
Covers-max_from f ((name, raw) ∷ files) m h =
    Covers-max_from f files (fence_max m (parse_file (some raw)))
      (Covers-max_left f m (parse_file (some raw)) h)

max_from-Covers :
    (f : Fence) (name : Text) (files : Map Text Text) (m : Option Fence)
    → parse_file (Map.get name files) ≡ some f
    → Covers f (max_from m files)
unfolding max_from Map.get
max_from-Covers f name [] m e = cc
max_from-Covers f name ((entry, raw) ∷ files) m e = elim (Bool-cases (text_eq entry name)) [
  | inl here ↦
      Covers-max_from f files (fence_max m (parse_file (some raw)))
        (rw (parsed here) (Covers-max_right f m))
  | inr there ↦ max_from-Covers f name files (fence_max m (parse_file (some raw))) (rw there at e)
]
  where
    parsed : text_eq entry name ≡ true → parse_file (some raw) ≡ some f
    parsed here = rw here at e

-- While all files can be read, the largest fence of the host is not below the fence that the file of any key holds.
pub seen_max-Covers :
    (g : Guard) (key : Text) (f : Fence)
    → held g key ≡ some f
    → (m : Fence) × (seen_max true g ≡ some m) × (fence_lt m f ≡ false)
unfolding seen_max held
seen_max-Covers g key f e =
    covered (max_from none g.fence_seen) (max_from-Covers f _ g.fence_seen none e)
  where
    covered : (o : Option Fence) → Covers f o → (m : Fence) × (o ≡ some m) × (fence_lt m f ≡ false)
    covered none h = absurd h
    covered (some m) h = (m, refl, h)
