-- ===== src/Predicate/Idempotent.antt =====
-- Trees in normal form, normalised.
use pavis.Prelude.{
  ℕ, ◌≤◌, Bool, true, false, not, ◌≡◌, ◌≢◌, refl, sym, ap, List, [], ◌∷◌, any, retain, All, length,
  arith,
}
use pavis.Predicate.{
  HeaderMatcher, PredicateNode, Nodes, header, header_cost, and_of, or_of, not_of, nil, cons,
  to_list, of_list, cost, is_always, is_never, and_parts, or_parts, flatten_by, insert_by_cost,
  sort_by_cost, dedup_from, dedup, tidy, normalize_and, normalize_or, normalize_not, normalize,
  normalize_all, simplify_and, simplify_or,
}
use pavis.Predicate.Lists.{node_eq→eq}
use pavis.Predicate.Normal.{
  IsNormal, AllNormal, IsTidy, IsNoConstant, IsSortedFrom, HasNoRepeatFrom, HasNoRepeat, is_and,
  is_or, is_not, of_list-to_list,
}
use pavis.Predicate.Reached.{normalize-IsNormal}

insert_below :
    (n : PredicateNode) (ns : List PredicateNode)
    → IsSortedFrom (cost n) ns
    → insert_by_cost n ns ≡ n ∷ ns
unfolding insert_by_cost
insert_below n [] h = refl
insert_below n (k ∷ ks) (le, h) = ground arith

sort_of_sorted : (k : ℕ) (ns : List PredicateNode) → IsSortedFrom k ns → sort_by_cost ns ≡ ns
unfolding sort_by_cost
sort_of_sorted k [] h = refl
sort_of_sorted k (n ∷ ns) (le, h) = rw (sort_of_sorted (cost n) ns h) (insert_below n ns h)

dedup_from_of_HasNoRepeat :
    (last : PredicateNode) (ns : List PredicateNode)
    → HasNoRepeatFrom last ns
    → dedup_from last ns ≡ ns
unfolding dedup_from
dedup_from_of_HasNoRepeat last [] h = refl
dedup_from_of_HasNoRepeat last (n ∷ ns) (differs, h) =
    ground (arith, node_eq→eq n last, dedup_from_of_HasNoRepeat n ns h)

dedup_of_HasNoRepeat : (ns : List PredicateNode) → HasNoRepeat ns → dedup ns ≡ ns
unfolding dedup
dedup_of_HasNoRepeat [] h = refl
dedup_of_HasNoRepeat (n ∷ ns) h = ap (λ ks. n ∷ ks) (dedup_from_of_HasNoRepeat n ns h)

retain_of_All :
    (keep : PredicateNode → Bool) (ns : List PredicateNode)
    → All (λ n. keep n ≡ true) ns
    → retain keep ns ≡ ns
retain_of_All keep [] h = refl
retain_of_All keep (n ∷ ns) (p, h) = ground (arith, retain_of_All keep ns h)

tidy_of_IsTidy :
    (nested keep : PredicateNode → Bool) (ns : List PredicateNode)
    → IsTidy nested ns
    → All (λ n. keep n ≡ true) ns
    → tidy keep ns ≡ ns
unfolding tidy
tidy_of_IsTidy nested keep ns t h =
    rw (retain_of_All keep ns h, sort_of_sorted 0 ns t.sorted) (dedup_of_HasNoRepeat ns t.no_repeat)

-- Where no part is of the kind that `parts` opens, flattening does nothing.
module _ (nested : PredicateNode → Bool) (parts : PredicateNode → List PredicateNode)
    (closed : (n : PredicateNode) → nested n ≡ false → parts n ≡ n ∷ []) where
  flatten_of_closed :
      (ns : List PredicateNode)
      → All (λ n. (nested n ≡ false) × IsNoConstant n) ns
      → flatten_by parts ns ≡ ns
  unfolding flatten_by
  flatten_of_closed [] h = refl
  flatten_of_closed (n ∷ ns) ((p, _), h) = rw (closed n p, flatten_of_closed ns h)

and_parts_closed : (n : PredicateNode) → is_and n ≡ false → and_parts n ≡ n ∷ []
and_parts_closed (and_of ns) h = cc
and_parts_closed n h = refl

or_parts_closed : (n : PredicateNode) → is_or n ≡ false → or_parts n ≡ n ∷ []
or_parts_closed (or_of ns) h = cc
or_parts_closed n h = refl

module _ (nested : PredicateNode → Bool) where
  no_never :
      (ns : List PredicateNode)
      → All (λ n. (nested n ≡ false) × IsNoConstant n) ns
      → any is_never ns ≡ false
  no_never [] h = refl
  no_never (n ∷ ns) ((_, (_, q)), h) = rw q (no_never ns h)

  no_always :
      (ns : List PredicateNode)
      → All (λ n. (nested n ≡ false) × IsNoConstant n) ns
      → any is_always ns ≡ false
  no_always [] h = refl
  no_always (n ∷ ns) ((_, (q, _)), h) = rw q (no_always ns h)

  All-kept_and :
      (ns : List PredicateNode)
      → All (λ n. (nested n ≡ false) × IsNoConstant n) ns
      → All (λ n. not (is_always n) ≡ true) ns
  All-kept_and [] h = tt
  All-kept_and (n ∷ ns) ((_, (q, _)), h) = (ap not q, All-kept_and ns h)

  All-kept_or :
      (ns : List PredicateNode)
      → All (λ n. (nested n ≡ false) × IsNoConstant n) ns
      → All (λ n. not (is_never n) ≡ true) ns
  All-kept_or [] h = tt
  All-kept_or (n ∷ ns) ((_, (_, q)), h) = (ap not q, All-kept_or ns h)

simplify_and_long :
    (ns : List PredicateNode) → 2 ≤ length ns → simplify_and ns ≡ and_of (of_list ns)
simplify_and_long [] h = absurd (omega arith)
simplify_and_long (n ∷ []) h = absurd (omega arith)
simplify_and_long (n ∷ k ∷ ks) h = refl

simplify_or_long : (ns : List PredicateNode) → 2 ≤ length ns → simplify_or ns ≡ or_of (of_list ns)
simplify_or_long [] h = absurd (omega arith)
simplify_or_long (n ∷ []) h = absurd (omega arith)
simplify_or_long (n ∷ k ∷ ks) h = refl

normalize_and_of_IsTidy :
    (ns : List PredicateNode)
    → 2 ≤ length ns
    → IsTidy is_and ns
    → normalize_and ns ≡ and_of (of_list ns)
unfolding normalize_and
normalize_and_of_IsTidy ns two t =
    rw
      (
        flatten_of_closed is_and and_parts and_parts_closed ns t.parts,
        no_never is_and ns t.parts,
        tidy_of_IsTidy is_and _ ns t (All-kept_and is_and ns t.parts),
      )
      (simplify_and_long ns two)

normalize_or_of_IsTidy :
    (ns : List PredicateNode)
    → 2 ≤ length ns
    → IsTidy is_or ns
    → normalize_or ns ≡ or_of (of_list ns)
unfolding normalize_or
normalize_or_of_IsTidy ns two t =
    rw
      (
        flatten_of_closed is_or or_parts or_parts_closed ns t.parts,
        no_always is_or ns t.parts,
        tidy_of_IsTidy is_or _ ns t (All-kept_or is_or ns t.parts),
      )
      (simplify_or_long ns two)

normalize_not_of_operand :
    (n : PredicateNode) → is_not n ≡ false → IsNoConstant n → normalize_not n ≡ not_of n
unfolding normalize_not
normalize_not_of_operand n h k = ground arith

mutual
  unfolding normalize

  normalize_of_IsNormal_lem : (n : PredicateNode) → IsNormal n → normalize n ≡ n
  normalize_of_IsNormal_lem (and_of ns) (two, t, h) =
      rw (normalize_all_of_AllNormal ns h, normalize_and_of_IsTidy (to_list ns) two t)
        (ap and_of (of_list-to_list ns))
  normalize_of_IsNormal_lem (or_of ns) (two, t, h) =
      rw (normalize_all_of_AllNormal ns h, normalize_or_of_IsTidy (to_list ns) two t)
        (ap or_of (of_list-to_list ns))
  normalize_of_IsNormal_lem (not_of n) (operand, constant, h) =
      rw (normalize_of_IsNormal_lem n h) (normalize_not_of_operand n operand constant)
  normalize_of_IsNormal_lem _ h = refl

  normalize_all_of_AllNormal : (ns : Nodes) → AllNormal ns → normalize_all ns ≡ to_list ns
  normalize_all_of_AllNormal nil h = refl
  normalize_all_of_AllNormal (cons n ns) (p, h) =
      rw (normalize_of_IsNormal_lem n p, normalize_all_of_AllNormal ns h)

-- Normalising a predicate tree a second time changes nothing.
pub normalize-idempotent : (n : PredicateNode) → normalize (normalize n) ≡ normalize n
normalize-idempotent n = normalize_of_IsNormal_lem (normalize n) (normalize-IsNormal n)

header-injective : {x y : HeaderMatcher} → header x ≡ header y → x ≡ y
header-injective e = cc

-- Two distinct header matchers of one cost, the first of which stands on both sides of the second,
-- are a normal conjunction: the repeated matcher is not removed.
pub normalize_keeps_separated :
    (x y : HeaderMatcher)
    → header_cost x ≡ header_cost y
    → x ≢ y
    → let conjunction = and_of (of_list (header x ∷ header y ∷ header x ∷ [])) in
      normalize conjunction ≡ conjunction
unfolding cost
normalize_keeps_separated x y same differ = normalize_of_IsNormal_lem _ (
  omega arith,
  record {
    sorted = omega arith;
    no_repeat =
        ((λ e. differ (sym (header-injective e))), ((λ e. differ (header-injective e)), tt));
    parts = ((refl, (refl, refl)), ((refl, (refl, refl)), ((refl, (refl, refl)), tt)));
  },
  (tt, (tt, (tt, tt))),
)
