-- ===== src/Predicate/Semantics.antt =====
-- What a predicate tree means, and what its normal form means.
use pavis.Prelude.{
  Bool, true, false, not, ◌&&◌, ◌||◌, ◌≡◌, refl, ◌∙◌, sym, ap, List, [], ◌∷◌, all, any, inl, inr,
  arith, all-append, any-append, Bool-cases,
}
use pavis.Predicate.{
  MethodMatcher, HeaderMatcher, PredicateNode, Nodes, always, never, method, header, and_of, or_of,
  not_of, nil, cons, to_list, of_list, is_always, is_never, and_parts, or_parts, flatten_by,
  normalize_and, normalize_or, normalize_not, normalize, normalize_all, simplify_and, simplify_or,
  tidy,
}
use pavis.Predicate.Lists.{all-tidy, any-tidy}

-- `And` holds where all children hold, `Or` where one does; the leaves are read by two functions.
module _ (on_method : MethodMatcher → Bool) (on_header : HeaderMatcher → Bool) where
  unfoldable mutual
    pub eval : PredicateNode → Bool
    eval always = true
    eval never = false
    eval (method m) = on_method m
    eval (header h) = on_header h
    eval (and_of ns) = eval_all ns
    eval (or_of ns) = eval_any ns
    eval (not_of n) = not (eval n)

    pub eval_all : Nodes → Bool
    eval_all nil = true
    eval_all (cons n ns) = eval n && eval_all ns

    pub eval_any : Nodes → Bool
    eval_any nil = false
    eval_any (cons n ns) = eval n || eval_any ns

  eval_all-of_list : (ns : List PredicateNode) → eval_all (of_list ns) ≡ all eval ns
  unfolding eval
  eval_all-of_list [] = refl
  eval_all-of_list (n ∷ ns) = rw (eval_all-of_list ns)

  eval_any-of_list : (ns : List PredicateNode) → eval_any (of_list ns) ≡ any eval ns
  unfolding eval
  eval_any-of_list [] = refl
  eval_any-of_list (n ∷ ns) = rw (eval_any-of_list ns)

  all-to_list : (ns : Nodes) → all eval (to_list ns) ≡ eval_all ns
  unfolding eval
  all-to_list nil = refl
  all-to_list (cons n ns) = rw (all-to_list ns)

  any-to_list : (ns : Nodes) → any eval (to_list ns) ≡ eval_any ns
  unfolding eval
  any-to_list nil = refl
  any-to_list (cons n ns) = rw (any-to_list ns)

  all-and_parts : (n : PredicateNode) → all eval (and_parts n) ≡ eval n
  unfolding eval
  all-and_parts (and_of ns) = all-to_list ns
  all-and_parts n = ground arith

  any-or_parts : (n : PredicateNode) → any eval (or_parts n) ≡ eval n
  unfolding eval
  any-or_parts (or_of ns) = any-to_list ns
  any-or_parts n = ground arith

  all-flatten : (ns : List PredicateNode) → all eval (flatten_by and_parts ns) ≡ all eval ns
  unfolding flatten_by
  all-flatten [] = refl
  all-flatten (n ∷ ns) =
      rw (all-append eval (and_parts n) (flatten_by and_parts ns), all-and_parts n, all-flatten ns)

  any-flatten : (ns : List PredicateNode) → any eval (flatten_by or_parts ns) ≡ any eval ns
  unfolding flatten_by
  any-flatten [] = refl
  any-flatten (n ∷ ns) =
      rw (any-append eval (or_parts n) (flatten_by or_parts ns), any-or_parts n, any-flatten ns)

  never_absorbs : (ns : List PredicateNode) → any is_never ns ≡ true → all eval ns ≡ false
  unfolding eval
  never_absorbs (never ∷ ns) h = refl
  never_absorbs [] h = cc
  never_absorbs (n ∷ ns) h = ground (arith, never_absorbs ns h)

  always_absorbs : (ns : List PredicateNode) → any is_always ns ≡ true → any eval ns ≡ true
  unfolding eval
  always_absorbs (always ∷ ns) h = refl
  always_absorbs [] h = cc
  always_absorbs (n ∷ ns) h = ground (arith, always_absorbs ns h)

  eval-simplify_and : (ns : List PredicateNode) → eval (simplify_and ns) ≡ all eval ns
  unfolding eval
  eval-simplify_and [] = refl
  eval-simplify_and (n ∷ []) = ground arith
  eval-simplify_and (n ∷ k ∷ ks) = rw (eval_all-of_list ks)

  eval-simplify_or : (ns : List PredicateNode) → eval (simplify_or ns) ≡ any eval ns
  unfolding eval
  eval-simplify_or [] = refl
  eval-simplify_or (n ∷ []) = ground arith
  eval-simplify_or (n ∷ k ∷ ks) = rw (eval_any-of_list ks)

  eval_removed_always : (n : PredicateNode) → not (is_always n) ≡ false → eval n ≡ true
  unfolding eval
  eval_removed_always n h = ground arith

  eval_removed_never : (n : PredicateNode) → not (is_never n) ≡ false → eval n ≡ false
  unfolding eval
  eval_removed_never n h = ground arith

  eval-normalize_and : (ns : List PredicateNode) → eval (normalize_and ns) ≡ all eval ns
  unfolding normalize_and eval
  eval-normalize_and ns = elim (Bool-cases (any is_never (flatten_by and_parts ns))) [
    | inl absorbed ↦
        rw absorbed (sym (never_absorbs (flatten_by and_parts ns) absorbed) ∙ all-flatten ns)
    | inr kept ↦ rw kept (
        eval-simplify_and (tidy (λ n. not (is_always n)) (flatten_by and_parts ns))
        ∙ all-tidy eval _ (flatten_by and_parts ns) eval_removed_always
        ∙ all-flatten ns)
  ]

  eval-normalize_or : (ns : List PredicateNode) → eval (normalize_or ns) ≡ any eval ns
  unfolding normalize_or eval
  eval-normalize_or ns = elim (Bool-cases (any is_always (flatten_by or_parts ns))) [
    | inl absorbed ↦
        rw absorbed (sym (always_absorbs (flatten_by or_parts ns) absorbed) ∙ any-flatten ns)
    | inr kept ↦ rw kept (
        eval-simplify_or (tidy (λ n. not (is_never n)) (flatten_by or_parts ns))
        ∙ any-tidy eval _ (flatten_by or_parts ns) eval_removed_never
        ∙ any-flatten ns)
  ]

  eval-normalize_not : (n : PredicateNode) → eval (normalize_not n) ≡ not (eval n)
  unfolding eval normalize_not
  eval-normalize_not n = ground arith

  mutual
    unfolding normalize eval

    eval-normalize_lem : (n : PredicateNode) → eval (normalize n) ≡ eval n
    eval-normalize_lem (and_of ns) = eval-normalize_and (normalize_all ns) ∙ all-normalize_all ns
    eval-normalize_lem (or_of ns) = eval-normalize_or (normalize_all ns) ∙ any-normalize_all ns
    eval-normalize_lem (not_of n) = eval-normalize_not (normalize n) ∙ ap not (eval-normalize_lem n)
    eval-normalize_lem _ = refl

    all-normalize_all : (ns : Nodes) → all eval (normalize_all ns) ≡ eval_all ns
    all-normalize_all nil = refl
    all-normalize_all (cons n ns) = rw (eval-normalize_lem n, all-normalize_all ns)

    any-normalize_all : (ns : Nodes) → any eval (normalize_all ns) ≡ eval_any ns
    any-normalize_all nil = refl
    any-normalize_all (cons n ns) = rw (eval-normalize_lem n, any-normalize_all ns)

  -- A predicate tree and its normal form hold of the same requests, however the method and header
  -- matchers are read.
  pub eval-normalize : (n : PredicateNode) → eval (normalize n) ≡ eval n
  eval-normalize n = eval-normalize_lem n
