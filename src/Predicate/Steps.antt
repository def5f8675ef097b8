-- ===== src/Predicate/Steps.antt =====
-- What the list steps of the normal form establish: order of cost, and no node twice in a row.
use pavis.Prelude.{ℕ, ◌≤◌, List, [], ◌∷◌, All, inl, inr, arith, Bool-cases}
use pavis.Predicate.{PredicateNode, cost, insert_by_cost, sort_by_cost, dedup_from, dedup, node_eq}
use pavis.Predicate.Lists.{node_eq→eq, eq→node_eq}
use pavis.Predicate.Normal.{IsSortedFrom, HasNoRepeatFrom, HasNoRepeat}

insert-IsSortedFrom :
    (k : ℕ) (n : PredicateNode) (ns : List PredicateNode)
    → k ≤ cost n
    → IsSortedFrom k ns
    → IsSortedFrom k (insert_by_cost n ns)
unfolding insert_by_cost
insert-IsSortedFrom k n [] h s = (h, tt)
insert-IsSortedFrom k n (m ∷ ms) h (le, s) = ground (arith, insert-IsSortedFrom (cost m) n ms)

pub sort-IsSortedFrom : (ns : List PredicateNode) → IsSortedFrom 0 (sort_by_cost ns)
unfolding sort_by_cost
sort-IsSortedFrom [] = tt
sort-IsSortedFrom (n ∷ ns) =
    insert-IsSortedFrom 0 n (sort_by_cost ns) (omega arith) (sort-IsSortedFrom ns)

dedup_from-IsSortedFrom :
    (last : PredicateNode) (ns : List PredicateNode)
    → IsSortedFrom (cost last) ns
    → IsSortedFrom (cost last) (dedup_from last ns)
unfolding dedup_from
dedup_from-IsSortedFrom last [] s = tt
dedup_from-IsSortedFrom last (n ∷ ns) (le, s) =
    ground (arith, node_eq→eq n last, dedup_from-IsSortedFrom last ns, dedup_from-IsSortedFrom n ns)

dedup_from-HasNoRepeatFrom :
    (last : PredicateNode) (ns : List PredicateNode) → HasNoRepeatFrom last (dedup_from last ns)
unfolding dedup_from
dedup_from-HasNoRepeatFrom last [] = tt
dedup_from-HasNoRepeatFrom last (n ∷ ns) = elim (Bool-cases (node_eq n last)) [
  | inl same ↦ rw (same, dedup_from) (dedup_from-HasNoRepeatFrom last ns)
  | inr other ↦
      rw (other, dedup_from)
        ((λ e. cc (other, eq→node_eq n last e)), dedup_from-HasNoRepeatFrom n ns)
]

pub dedup-sorted : (ns : List PredicateNode) → IsSortedFrom 0 ns → IsSortedFrom 0 (dedup ns)
unfolding dedup
dedup-sorted [] s = tt
dedup-sorted (n ∷ ns) (le, s) = (le, dedup_from-IsSortedFrom n ns s)

pub dedup-HasNoRepeat : (ns : List PredicateNode) → HasNoRepeat (dedup ns)
unfolding dedup
dedup-HasNoRepeat [] = tt
dedup-HasNoRepeat (n ∷ ns) = dedup_from-HasNoRepeatFrom n ns

-- What holds of all nodes holds of all after each list step.
module _ (P : PredicateNode → Type 0) where
  All-insert :
      (n : PredicateNode) (ns : List PredicateNode) → P n → All P ns → All P (insert_by_cost n ns)
  unfolding insert_by_cost
  All-insert n [] p h = (p, tt)
  All-insert n (k ∷ ks) p (q, h) = ground (arith, All-insert n ks)

  pub All-sort : (ns : List PredicateNode) → All P ns → All P (sort_by_cost ns)
  unfolding sort_by_cost
  All-sort [] h = tt
  All-sort (n ∷ ns) (p, h) = All-insert n (sort_by_cost ns) p (All-sort ns h)

  All-dedup_from :
      (last : PredicateNode) (ns : List PredicateNode) → All P ns → All P (dedup_from last ns)
  unfolding dedup_from
  All-dedup_from last [] h = tt
  All-dedup_from last (n ∷ ns) (p, h) = ground (arith, All-dedup_from last ns, All-dedup_from n ns)

  pub All-dedup : (ns : List PredicateNode) → All P ns → All P (dedup ns)
  unfolding dedup
  All-dedup [] h = tt
  All-dedup (n ∷ ns) (p, h) = (p, All-dedup_from n ns h)
