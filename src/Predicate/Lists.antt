-- ===== src/Predicate/Lists.antt =====
-- The list steps of the normal form: removing, sorting and dropping repeats keep what holds of all,
-- and of one, of the nodes.
use pavis.Prelude.{
  Bool, true, false, ◌&&◌, ◌||◌, ◌≡◌, refl, ◌∙◌, List, [], ◌∷◌, all, any, retain, arith,
}
use pavis.Predicate.{PredicateNode, node_eq, insert_by_cost, sort_by_cost, dedup_from, dedup, tidy}

pub node_eq→eq : (a b : PredicateNode) → node_eq a b ≡ true → a ≡ b
unfolding node_eq
node_eq→eq a b h = ground arith

pub eq→node_eq : (a b : PredicateNode) → a ≡ b → node_eq a b ≡ true
unfolding node_eq
eq→node_eq a b h = ground arith

module _ (f : PredicateNode → Bool) where
  all-insert :
      (n : PredicateNode) (ns : List PredicateNode)
      → all f (insert_by_cost n ns) ≡ (f n && all f ns)
  unfolding insert_by_cost
  all-insert n [] = refl
  all-insert n (k ∷ ks) = ground (arith, all-insert n ks)

  all-sort : (ns : List PredicateNode) → all f (sort_by_cost ns) ≡ all f ns
  unfolding sort_by_cost
  all-sort [] = refl
  all-sort (n ∷ ns) = rw (all-insert n (sort_by_cost ns), all-sort ns)

  any-insert :
      (n : PredicateNode) (ns : List PredicateNode)
      → any f (insert_by_cost n ns) ≡ (f n || any f ns)
  unfolding insert_by_cost
  any-insert n [] = refl
  any-insert n (k ∷ ks) = ground (arith, any-insert n ks)

  any-sort : (ns : List PredicateNode) → any f (sort_by_cost ns) ≡ any f ns
  unfolding sort_by_cost
  any-sort [] = refl
  any-sort (n ∷ ns) = rw (any-insert n (sort_by_cost ns), any-sort ns)

  all-dedup_from :
      (last : PredicateNode) (ns : List PredicateNode)
      → (f last && all f (dedup_from last ns)) ≡ (f last && all f ns)
  unfolding dedup_from
  all-dedup_from last [] = refl
  all-dedup_from last (n ∷ ns) =
      ground (arith, node_eq→eq n last, all-dedup_from last ns, all-dedup_from n ns)

  any-dedup_from :
      (last : PredicateNode) (ns : List PredicateNode)
      → (f last || any f (dedup_from last ns)) ≡ (f last || any f ns)
  unfolding dedup_from
  any-dedup_from last [] = refl
  any-dedup_from last (n ∷ ns) =
      ground (arith, node_eq→eq n last, any-dedup_from last ns, any-dedup_from n ns)

  all-dedup : (ns : List PredicateNode) → all f (dedup ns) ≡ all f ns
  unfolding dedup
  all-dedup [] = refl
  all-dedup (n ∷ ns) = all-dedup_from n ns

  any-dedup : (ns : List PredicateNode) → any f (dedup ns) ≡ any f ns
  unfolding dedup
  any-dedup [] = refl
  any-dedup (n ∷ ns) = any-dedup_from n ns

  module _ (keep : PredicateNode → Bool) where
    all-retain :
        (ns : List PredicateNode)
        → ((n : PredicateNode) → keep n ≡ false → f n ≡ true)
        → all f (retain keep ns) ≡ all f ns
    all-retain [] h = refl
    all-retain (n ∷ ns) h = ground (arith, h n, all-retain ns h)

    any-retain :
        (ns : List PredicateNode)
        → ((n : PredicateNode) → keep n ≡ false → f n ≡ false)
        → any f (retain keep ns) ≡ any f ns
    any-retain [] h = refl
    any-retain (n ∷ ns) h = ground (arith, h n, any-retain ns h)

    -- Where the removed nodes hold, all hold afterwards exactly if all held before.
    pub all-tidy :
        (ns : List PredicateNode)
        → ((n : PredicateNode) → keep n ≡ false → f n ≡ true)
        → all f (tidy keep ns) ≡ all f ns
    unfolding tidy
    all-tidy ns h =
        all-dedup (sort_by_cost (retain keep ns)) ∙ all-sort (retain keep ns) ∙ all-retain ns h

    -- Where the removed nodes fail, one holds afterwards exactly if one held before.
    pub any-tidy :
        (ns : List PredicateNode)
        → ((n : PredicateNode) → keep n ≡ false → f n ≡ false)
        → any f (tidy keep ns) ≡ any f ns
    unfolding tidy
    any-tidy ns h =
        any-dedup (sort_by_cost (retain keep ns)) ∙ any-sort (retain keep ns) ∙ any-retain ns h
