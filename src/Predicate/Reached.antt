-- ===== src/Predicate/Reached.antt =====
-- The normal form of what `normalize` returns.
use pavis.Prelude.{
  Bool, false, not, ◌≡◌, refl, List, [], ◌∷◌, any, retain, All, All-append, inl, inr, arith,
  Bool-cases,
}
use pavis.Predicate.{
  PredicateNode, Nodes, always, never, and_of, or_of, not_of, nil, cons, is_always, is_never,
  and_parts, or_parts, flatten_by, tidy, normalize_and, normalize_or, normalize_not, normalize,
  normalize_all, simplify_and, simplify_or,
}
use pavis.Predicate.Normal.{
  IsNormal, IsTidy, IsNoConstant, is_and, is_or, to_list-of_list, AllNormal-of_list,
  All-of_AllNormal,
}
use pavis.Predicate.Steps.{sort-IsSortedFrom, dedup-sorted, dedup-HasNoRepeat, All-sort, All-dedup}

-- A part of a normal `And` or `Or`.
abbrev IsPart : (PredicateNode → Bool) → PredicateNode → Type 0
IsPart nested n = IsNormal n × ((nested n ≡ false) × IsNoConstant n)

module _ (nested absorbing identity : PredicateNode → Bool)
    (constants : (n : PredicateNode)
      → absorbing n ≡ false
      → identity n ≡ false
      → IsNoConstant n) where
  retain-IsPart :
      (ns : List PredicateNode)
      → All (λ n. IsNormal n × (nested n ≡ false)) ns
      → any absorbing ns ≡ false
      → All (IsPart nested) (retain (λ n. not (identity n)) ns)
  retain-IsPart [] h e = tt
  retain-IsPart (n ∷ ns) ((p, q), h) e = ground (arith, constants n, retain-IsPart ns h)

  tidy-IsPart :
      (ns : List PredicateNode)
      → All (λ n. IsNormal n × (nested n ≡ false)) ns
      → any absorbing ns ≡ false
      → All (IsPart nested) (tidy (λ n. not (identity n)) ns)
  unfolding tidy
  tidy-IsPart ns h e =
      All-dedup (IsPart nested) _ (All-sort (IsPart nested) _ (retain-IsPart ns h e))

All-IsNormal :
    (nested : PredicateNode → Bool) (ns : List PredicateNode)
    → All (IsPart nested) ns
    → All IsNormal ns
All-IsNormal nested [] h = tt
All-IsNormal nested (n ∷ ns) ((p, q), h) = (p, All-IsNormal nested ns h)

All-parts :
    (nested : PredicateNode → Bool) (ns : List PredicateNode)
    → All (IsPart nested) ns
    → All (λ n. (nested n ≡ false) × IsNoConstant n) ns
All-parts nested [] h = tt
All-parts nested (n ∷ ns) ((p, q), h) = (q, All-parts nested ns h)

tidy-IsTidy :
    (nested keep : PredicateNode → Bool) (ns : List PredicateNode)
    → All (IsPart nested) (tidy keep ns)
    → IsTidy nested (tidy keep ns)
unfolding tidy
tidy-IsTidy nested keep ns h = record {
  sorted = dedup-sorted _ (sort-IsSortedFrom (retain keep ns));
  no_repeat = dedup-HasNoRepeat _;
  parts = All-parts nested _ h;
}

simplify_and-IsNormal :
    (ns : List PredicateNode)
    → All (IsPart is_and) ns
    → IsTidy is_and ns
    → IsNormal (simplify_and ns)
simplify_and-IsNormal [] h t = tt
simplify_and-IsNormal (n ∷ []) ((p, _), _) t = p
simplify_and-IsNormal (n ∷ k ∷ ks) h t =
    rw (to_list-of_list ks)
      (omega arith, t, AllNormal-of_list (n ∷ k ∷ ks) (All-IsNormal is_and (n ∷ k ∷ ks) h))

simplify_or-IsNormal :
    (ns : List PredicateNode) → All (IsPart is_or) ns → IsTidy is_or ns → IsNormal (simplify_or ns)
simplify_or-IsNormal [] h t = tt
simplify_or-IsNormal (n ∷ []) ((p, _), _) t = p
simplify_or-IsNormal (n ∷ k ∷ ks) h t =
    rw (to_list-of_list ks)
      (omega arith, t, AllNormal-of_list (n ∷ k ∷ ks) (All-IsNormal is_or (n ∷ k ∷ ks) h))

All-nested :
    (nested : PredicateNode → Bool) (ns : List PredicateNode)
    → All IsNormal ns
    → All (λ n. (nested n ≡ false) × IsNoConstant n) ns
    → All (λ n. IsNormal n × (nested n ≡ false)) ns
All-nested nested [] h k = tt
All-nested nested (n ∷ ns) (p, h) ((q, _), k) = ((p, q), All-nested nested ns h k)

and_parts-IsNormal :
    (n : PredicateNode) → IsNormal n → All (λ k. IsNormal k × (is_and k ≡ false)) (and_parts n)
and_parts-IsNormal (and_of ns) (_, t, h) = All-nested is_and _ (All-of_AllNormal ns h) t.parts
and_parts-IsNormal n h = ((h, refl), tt)

or_parts-IsNormal :
    (n : PredicateNode) → IsNormal n → All (λ k. IsNormal k × (is_or k ≡ false)) (or_parts n)
or_parts-IsNormal (or_of ns) (_, t, h) = All-nested is_or _ (All-of_AllNormal ns h) t.parts
or_parts-IsNormal n h = ((h, refl), tt)

flatten-All :
    (P : PredicateNode → Type 0) (parts : PredicateNode → List PredicateNode)
    → ((n : PredicateNode) → IsNormal n → All P (parts n))
    → (ns : List PredicateNode) → All IsNormal ns
    → All P (flatten_by parts ns)
unfolding flatten_by
flatten-All P parts f [] h = tt
flatten-All P parts f (n ∷ ns) (p, h) =
    All-append P (parts n) (flatten_by parts ns) (f n p) (flatten-All P parts f ns h)

normalize_and-IsNormal : (ns : List PredicateNode) → All IsNormal ns → IsNormal (normalize_and ns)
unfolding normalize_and
normalize_and-IsNormal ns h =
    let flat = flatten_by and_parts ns in
    let keep = λ (n : PredicateNode). not (is_always n) in
    elim (Bool-cases (any is_never flat)) [
      | inl absorbed ↦ rw absorbed tt
      | inr kept ↦
          let parts =
            tidy-IsPart is_and is_never is_always (λ n p q. (q, p)) flat
              (flatten-All _ and_parts and_parts-IsNormal ns h) kept in
          rw kept
            (simplify_and-IsNormal (tidy keep flat) parts (tidy-IsTidy is_and keep flat parts))
    ]

normalize_or-IsNormal : (ns : List PredicateNode) → All IsNormal ns → IsNormal (normalize_or ns)
unfolding normalize_or
normalize_or-IsNormal ns h =
    let flat = flatten_by or_parts ns in
    let keep = λ (n : PredicateNode). not (is_never n) in
    elim (Bool-cases (any is_always flat)) [
      | inl absorbed ↦ rw absorbed tt
      | inr kept ↦
          let parts =
            tidy-IsPart is_or is_always is_never (λ n p q. (p, q)) flat
              (flatten-All _ or_parts or_parts-IsNormal ns h) kept in
          rw kept (simplify_or-IsNormal (tidy keep flat) parts (tidy-IsTidy is_or keep flat parts))
    ]

normalize_not-IsNormal : (n : PredicateNode) → IsNormal n → IsNormal (normalize_not n)
unfolding normalize_not
normalize_not-IsNormal always h = tt
normalize_not-IsNormal never h = tt
normalize_not-IsNormal (not_of n) (_, _, h) = h
normalize_not-IsNormal n h = (refl, (refl, refl), h)

mutual
  unfolding normalize

  normalize-IsNormal_lem : (n : PredicateNode) → IsNormal (normalize n)
  normalize-IsNormal_lem (and_of ns) = normalize_and-IsNormal _ (normalize_all-IsNormal ns)
  normalize-IsNormal_lem (or_of ns) = normalize_or-IsNormal _ (normalize_all-IsNormal ns)
  normalize-IsNormal_lem (not_of n) = normalize_not-IsNormal _ (normalize-IsNormal_lem n)
  normalize-IsNormal_lem _ = tt

  normalize_all-IsNormal : (ns : Nodes) → All IsNormal (normalize_all ns)
  normalize_all-IsNormal nil = tt
  normalize_all-IsNormal (cons n ns) = (normalize-IsNormal_lem n, normalize_all-IsNormal ns)

-- `normalize` reaches the normal form: below each `And` and `Or` stand at least two nodes, in order
-- of cost, none of them a constant, none an operator of the same kind and none twice in a row; below
-- a `Not` stands neither a constant nor a `Not`.
pub normalize-IsNormal : (n : PredicateNode) → IsNormal (normalize n)
normalize-IsNormal n = normalize-IsNormal_lem n
