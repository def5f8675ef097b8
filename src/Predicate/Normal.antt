-- ===== src/Predicate/Normal.antt =====
-- The normal form of a predicate tree, as a predicate.
use pavis.Prelude.{ℕ, ◌≤◌, Bool, true, false, ◌≡◌, ◌≢◌, refl, List, [], ◌∷◌, All, length}
use pavis.Predicate.{
  PredicateNode, Nodes, and_of, or_of, not_of, nil, cons, to_list, of_list, cost, is_always,
  is_never,
}

-- Costs do not fall from `k` on.
abbrev pub IsSortedFrom : ℕ → List PredicateNode → Type 0
IsSortedFrom k [] = Unit
IsSortedFrom k (n ∷ ns) = (k ≤ cost n) × IsSortedFrom (cost n) ns

-- No node equals the one before it.
abbrev pub HasNoRepeatFrom : PredicateNode → List PredicateNode → Type 0
HasNoRepeatFrom last [] = Unit
HasNoRepeatFrom last (n ∷ ns) = (n ≢ last) × HasNoRepeatFrom n ns

abbrev pub HasNoRepeat : List PredicateNode → Type 0
HasNoRepeat [] = Unit
HasNoRepeat (n ∷ ns) = HasNoRepeatFrom n ns

abbrev pub is_and : PredicateNode → Bool
is_and (and_of _) = true
is_and _ = false

abbrev pub is_or : PredicateNode → Bool
is_or (or_of _) = true
is_or _ = false

abbrev pub is_not : PredicateNode → Bool
is_not (not_of _) = true
is_not _ = false

abbrev pub IsNoConstant : PredicateNode → Type 0
IsNoConstant n = (is_always n ≡ false) × (is_never n ≡ false)

-- The list below an `And` or an `Or`: at least two nodes, in order of cost, with no node twice in a
-- row, and none of them a constant or an operator of the kind `nested`.
pub record IsTidy (nested : PredicateNode → Bool) (ns : List PredicateNode) : Type 0 where
  pub sorted : IsSortedFrom 0 ns
  pub no_repeat : HasNoRepeat ns
  pub parts : All (λ n. (nested n ≡ false) × IsNoConstant n) ns

abbrev mutual
  pub IsNormal : PredicateNode → Type 0
  IsNormal (and_of ns) = (2 ≤ length (to_list ns)) × IsTidy is_and (to_list ns) × AllNormal ns
  IsNormal (or_of ns) = (2 ≤ length (to_list ns)) × IsTidy is_or (to_list ns) × AllNormal ns
  IsNormal (not_of n) = (is_not n ≡ false) × IsNoConstant n × IsNormal n
  IsNormal _ = Unit

  pub AllNormal : Nodes → Type 0
  AllNormal nil = Unit
  AllNormal (cons n ns) = IsNormal n × AllNormal ns

pub to_list-of_list : (ns : List PredicateNode) → to_list (of_list ns) ≡ ns
to_list-of_list [] = refl
to_list-of_list (n ∷ ns) = rw (to_list-of_list ns)

pub of_list-to_list : (ns : Nodes) → of_list (to_list ns) ≡ ns
of_list-to_list nil = refl
of_list-to_list (cons n ns) = rw (of_list-to_list ns)

pub AllNormal-of_list : (ns : List PredicateNode) → All IsNormal ns → AllNormal (of_list ns)
AllNormal-of_list [] h = tt
AllNormal-of_list (n ∷ ns) (p, h) = (p, AllNormal-of_list ns h)

pub All-of_AllNormal : (ns : Nodes) → AllNormal ns → All IsNormal (to_list ns)
All-of_AllNormal nil h = tt
All-of_AllNormal (cons n ns) (p, h) = (p, All-of_AllNormal ns h)
