-- ===== src/Raft/Cluster/Parts.antt =====
-- src/ha/raft.rs: the nodes, the messages and the votes of a cluster, entry by entry.
use rdsctl.Base.{
  Bool-cases, All, Text, text_eq, text_eq_iff, ℕ, ◌≡◌, refl, sym, subst, ◌∙◌, ◌⊎◌, inl, inr, false,
  some, List, [], ◌∷◌, ◌++◌, arith, text_key,
}
use rdsctl.Base.Map
use rdsctl.Base.Map.{Map}
use rdsctl.Raft.{Outbound, HardState, NameSet}
use rdsctl.Raft.Election.Moves.{Later}
use rdsctl.Raft.Cluster.{In, put_at}
use rdsctl.Raft.Cluster.Invariant.{ballot}

module _ {A : Type 0} where
  pub put_at_self : (i : Text) (x : A) (f : Text → A) → put_at i x f i ≡ x
  put_at_self i x f = rw ((text_eq_iff i i).1 refl) refl

  -- What holds of the new entry and of all others.
  pub put_at_lem :
      (P : Text → A → Type 0) (i : Text) (x : A) (f : Text → A)
      → P i x
      → ((j : Text) → text_eq i j ≡ false → P j (f j))
      → (j : Text) → P j (put_at i x f j)
  put_at_lem P i x f h k j = elim (Bool-cases (text_eq i j)) [
    | inl e ↦
        subst (λ a. P a (put_at i x f a)) ((text_eq_iff i j).0 e)
          (subst (P i) (sym (put_at_self i x f)) h)
    | inr e ↦ rw e (k j e)
  ]

pub In-append : (o : Outbound) (xs ys : List Outbound) → In o (xs ++ ys) → In o xs ⊎ In o ys
In-append o [] ys h = inr h
In-append o (x ∷ xs) ys (inl e) = inl (inl e)
In-append o (x ∷ xs) ys (inr h) = map_left (In-append o xs ys h)
  where
    map_left : In o xs ⊎ In o ys → In o (x ∷ xs) ⊎ In o ys
    map_left (inl k) = inl (inr k)
    map_left (inr k) = inr k

pub In-append_left : (o : Outbound) (xs ys : List Outbound) → In o xs → In o (xs ++ ys)
In-append_left o [] ys h = absurd h
In-append_left o (x ∷ xs) ys (inl e) = inl e
In-append_left o (x ∷ xs) ys (inr h) = inr (In-append_left o xs ys h)

pub In-append_right : (o : Outbound) (xs ys : List Outbound) → In o ys → In o (xs ++ ys)
In-append_right o [] ys h = h
In-append_right o (x ∷ xs) ys h = inr (In-append_right o xs ys h)

pub All-In : (P : Outbound → Type 0) (o : Outbound) (xs : List Outbound) → All P xs → In o xs → P o
All-In P o [] a h = absurd h
All-In P o (x ∷ xs) a (inl e) = subst P (sym e) a.0
All-In P o (x ∷ xs) a (inr h) = All-In P o xs a.1 h

-- A vote that a later hard state of the same term kept.
pub kept_vote :
    (t : ℕ) (c d : Text) (h : HardState)
    → Later (ballot t c) h
    → h.current_term ≡ t
    → h.voted_for ≡ some d
    → c ≡ d
kept_vote t c d h (inl lt) e v = absurd (omega arith)
kept_vote t c d h (inr (_, k)) e v = some_inj (sym k ∙ v)
  where
    some_inj : some c ≡ some d → c ≡ d
    some_inj e = cc

-- A name is in a set behind an insertion when it was inserted, or was there.
pub inserted :
    (k u : Text) (s : NameSet)
    → Map.get u (Map.insert k tt s) ≡ some tt
    → (k ≡ u) ⊎ (Map.get u s ≡ some tt)
inserted k u s h = elim (Bool-cases (text_eq k u)) [
  | inl e ↦ inl ((text_eq_iff k u).0 e)
  | inr e ↦ inr (sym (Map.get-insert k u tt s ∙ rw e refl) ∙ h)
]

abbrev pub no_names : NameSet
no_names = []

pub none_in : (u : Text) → Map.get u no_names ≡ some tt → ⊥
unfolding Map.get
none_in u h = cc
