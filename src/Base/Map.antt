-- ===== src/Base/Map.antt =====
-- `BTreeMap`: a list of entries with strictly increasing keys.
use rdsctl.Base.{
  if◌then◌else◌, Key, ◌≡◌, refl, subst, Bool, true, Option, none, some, List, [], ◌∷◌, arith,
}

abbrev pub Map {ℓ κ} : Type ℓ → Type κ → Type (ℓ ⊔ κ)
Map K V = List (K × V)

module _ {ℓ} {K : Type ℓ} ⦃o : Key K⦄ where
  pub beq_refl : (k : K) → o.beq k k ≡ true
  beq_refl k = (o.beq_iff k k).1 refl

module _ {ℓ κ} {K : Type ℓ} {V : Type κ} ⦃o : Key K⦄ where
  unfoldable pub get : K → Map K V → Option V
  get k [] = none
  get k ((j, v) ∷ m) = let rest = get k m in if o.beq j k then some v else rest

  unfoldable pub insert : K → V → Map K V → Map K V
  insert k v [] = (k, v) ∷ []
  insert k v ((j, w) ∷ m) =
      let rest = insert k v m in
      if o.beq j k then (k, v) ∷ m else if o.lt k j then (k, v) ∷ (j, w) ∷ m else (j, w) ∷ rest

  unfoldable pub remove : K → Map K V → Map K V
  remove k [] = []
  remove k ((j, w) ∷ m) = let rest = remove k m in if o.beq j k then rest else (j, w) ∷ rest

  unfoldable pub retain : (K → V → Bool) → Map K V → Map K V
  retain test [] = []
  retain test ((j, w) ∷ m) = let rest = retain test m in if test j w then (j, w) ∷ rest else rest

  -- Every key of the map is above `k`.
  abbrev pub Above : K → Map K V → Type 0
  Above k [] = Unit
  Above k ((j, w) ∷ m) = (o.lt k j ≡ true) × Above k m

  abbrev pub IsSorted : Map K V → Type 0
  IsSorted [] = Unit
  IsSorted ((k, v) ∷ m) = Above k m × IsSorted m

  pub get-insert :
      (k j : K) (v : V) (m : Map K V)
      → get j (insert k v m) ≡ (if o.beq k j then some v else get j m)
  unfolding get insert
  get-insert k j v [] = refl
  get-insert k j v ((i, w) ∷ m) =
      ground (arith, o.beq_iff k j, o.beq_iff i k, o.beq_iff i j, get-insert k j v m)

  pub get-remove :
      (k j : K) (m : Map K V) → get j (remove k m) ≡ (if o.beq k j then none else get j m)
  unfolding get remove
  get-remove k j [] = ground arith
  get-remove k j ((i, w) ∷ m) =
      ground (arith, o.beq_iff k j, o.beq_iff i k, o.beq_iff i j, get-remove k j m)

  pub get-insert_self : (k : K) (v : V) (m : Map K V) → get k (insert k v m) ≡ some v
  get-insert_self k v m = rw (get-insert k k v m, beq_refl k)

  Above-trans : (i k : K) (m : Map K V) → o.lt i k ≡ true → Above k m → Above i m
  Above-trans i k [] h a = tt
  Above-trans i k ((j, w) ∷ m) h a = (o.lt_trans i k j h a.0, Above-trans i k m h a.1)

  Above-insert :
      (i k : K) (v : V) (m : Map K V) → o.lt i k ≡ true → Above i m → Above i (insert k v m)
  unfolding insert
  Above-insert i k v [] h a = (h, tt)
  Above-insert i k v ((j, w) ∷ m) h a = ground (arith, Above-insert i k v m h a.1)

  Above-eq : (i k : K) (m : Map K V) → o.beq i k ≡ true → Above i m → Above k m
  Above-eq i k m e = subst (λ x. Above x m) ((o.beq_iff i k).0 e)

  pub insert-IsSorted : (k : K) (v : V) (m : Map K V) → IsSorted m → IsSorted (insert k v m)
  unfolding insert
  insert-IsSorted k v [] s = (tt, tt)
  insert-IsSorted k v ((j, w) ∷ m) s = ground (
    arith,
    Above-eq j k m,
    Above-trans k j m,
    o.lt_total j k,
    Above-insert j k v m,
    insert-IsSorted k v m s.1,
  )

  Above-remove : (i k : K) (m : Map K V) → Above i m → Above i (remove k m)
  unfolding remove
  Above-remove i k [] a = tt
  Above-remove i k ((j, w) ∷ m) a = ground (arith, Above-remove i k m a.1)

  pub remove-IsSorted : (k : K) (m : Map K V) → IsSorted m → IsSorted (remove k m)
  unfolding remove
  remove-IsSorted k [] s = tt
  remove-IsSorted k ((j, w) ∷ m) s = ground (arith, Above-remove j k m s.0, remove-IsSorted k m s.1)

  Above-retain : (i : K) (test : K → V → Bool) (m : Map K V) → Above i m → Above i (retain test m)
  unfolding retain
  Above-retain i test [] a = tt
  Above-retain i test ((j, w) ∷ m) a = ground (arith, Above-retain i test m a.1)

  pub retain-IsSorted : (test : K → V → Bool) (m : Map K V) → IsSorted m → IsSorted (retain test m)
  unfolding retain
  retain-IsSorted test [] s = tt
  retain-IsSorted test ((j, w) ∷ m) s =
      ground (arith, Above-retain j test m s.0, retain-IsSorted test m s.1)

  -- A key below all others is absent.
  pub get-Above : (k : K) (m : Map K V) → Above k m → get k m ≡ none
  unfolding get
  get-Above k [] a = refl
  get-Above k ((j, w) ∷ m) a = ground (arith, o.beq_iff j k, o.lt_irrefl k, get-Above k m a.1)

  abbrev pub filter_by : (K → V → Bool) → K → Option V → Option V
  filter_by test k none = none
  filter_by test k (some v) = if test k v then some v else none

  pub get-retain :
      (test : K → V → Bool) (k : K) (m : Map K V)
      → IsSorted m
      → get k (retain test m) ≡ filter_by test k (get k m)
  unfolding get retain
  get-retain test k [] s = refl
  get-retain test k ((j, w) ∷ m) s =
      ground (arith, get-retain test k m s.1, o.beq_iff j k, get-Above j m s.0)
