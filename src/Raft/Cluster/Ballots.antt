-- ===== src/Raft/Cluster/Ballots.antt =====
-- src/ha/raft.rs: a set of voters is as long as the list of the voters that are in it.
use rdsctl.Base.{
  is_some, length, keep_if, Text, text_eq_iff, suc, ◌≤◌, ◌≡◌, refl, ap, Bool, true, false, Option,
  none, some, List, [], ◌∷◌, arith, text_key,
}
use rdsctl.Base.Map
use rdsctl.Base.Map.{Map, IsSorted}
use rdsctl.Raft.{NameSet}
use rdsctl.Raft.Config.{mem}

module _ (p q : Text → Bool) (more : (v : Text) → q v ≡ true → p v ≡ true) where
  keeps_more : (vs : List Text) → length (keep_if q vs) ≤ length (keep_if p vs)
  keeps_more [] = omega arith
  keeps_more (v ∷ vs) = ground (arith, keeps_more vs, more v)

  -- A test that holds at one more member holds more often.
  keeps_one_more :
      (k : Text) (vs : List Text)
      → p k ≡ true
      → q k ≡ false
      → mem k vs ≡ true
      → suc (length (keep_if q vs)) ≤ length (keep_if p vs)
  keeps_one_more k [] a b h = absurd cc
  keeps_one_more k (v ∷ vs) a b h =
      ground
        (arith, keeps_more vs, keeps_one_more k vs a b, more v, text_eq_iff v k, text_eq_iff k v)

unfoldable pub has : NameSet → Text → Bool
has s v = is_some (Map.get v s)

has_more : (k v : Text) (u : Unit) (s : NameSet) → has s v ≡ true → has ((k, u) ∷ s) v ≡ true
unfolding has Map.get
has_more k v u s h = ground arith

has_first : (k : Text) (u : Unit) (s : NameSet) → has ((k, u) ∷ s) k ≡ true
unfolding has Map.get
has_first k u s = rw (Map.beq_refl k) refl

has_none : (k : Text) (s : NameSet) → Map.Above k s → has s k ≡ false
unfolding has
has_none k s h = ap is_some (Map.get-Above k s h)

get_more :
    (k v : Text) (u : Unit) (s : NameSet) → Map.get v s ≡ some tt → Map.get v ((k, u) ∷ s) ≡ some tt
unfolding Map.get
get_more k v u s h = ground arith

get_first : (k : Text) (u : Unit) (s : NameSet) → Map.get k ((k, u) ∷ s) ≡ some tt
unfolding Map.get
get_first k u s = rw (Map.beq_refl k) refl

-- Different names, all of them voters, are at most as many as the voters that are among them.
pub length-has :
    (voters : List Text) (s : NameSet)
    → IsSorted s
    → ((v : Text) → Map.get v s ≡ some tt → mem v voters ≡ true)
    → length s ≤ length (keep_if (has s) voters)
length-has voters [] h all = omega arith
length-has voters ((k, u) ∷ s) h all = omega (
  arith,
  length-has voters s h.1 (λ v e. all v (get_more k v u s e)),
  keeps_one_more (has ((k, u) ∷ s)) (has s) (λ v. has_more k v u s) k voters (has_first k u s)
      (has_none k s h.0) (all k (get_first k u s)),
)

present : (o : Option (Unit {0})) → is_some o ≡ true → o ≡ some tt
present none e = absurd cc
present (some u) e = refl

-- A name that is in a set.
pub has-get : (s : NameSet) (v : Text) → has s v ≡ true → Map.get v s ≡ some tt
unfolding has
has-get s v h = present (Map.get v s) h
