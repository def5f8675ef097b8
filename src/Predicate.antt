-- ===== src/Predicate.antt =====
-- crates/pavis-core/src/runtime/matcher.rs: the predicate tree of a route and its normal form.
pub mod Semantics
pub mod Lists
pub mod Normal
pub mod Steps
pub mod Reached
pub mod Idempotent
mod Tests
use pavis.Prelude.{
  ℕ, ◌+◌, ◌%◌, min, Bool, true, false, not, List, [], ◌∷◌, ◌++◌, any, retain, leb, if◌then◌else◌,
}
use pavis.Prelude.Text.{Text}
use pavis.Http.{HttpMethod, HttpMethod-discrete}
use native.Mathlib.Decide.{ℕ_discrete}

pub data MethodMatcher : Type 0 where
  exact : HttpMethod → MethodMatcher
  any_of : List HttpMethod → MethodMatcher

pub data HeaderMatcher : Type 0 where
  exact : (name value : Text) → HeaderMatcher
  prefix : (name prefix : Text) → HeaderMatcher
  regex : (name pattern : Text) → HeaderMatcher
  present : (name : Text) → HeaderMatcher

-- `True` and `False` are `always` and `never`, after the comments on the variants; `And` and `Or`
-- hold a `Vec` of children, which is `Nodes`.
mutual
  pub data PredicateNode : Type 0 where
    always never : PredicateNode
    method : MethodMatcher → PredicateNode
    header : HeaderMatcher → PredicateNode
    and_of or_of : Nodes → PredicateNode
    not_of : PredicateNode → PredicateNode

  pub data Nodes : Type 0 where
    nil : Nodes
    cons : PredicateNode → Nodes → Nodes

pub PredicateNode-discrete : Discrete PredicateNode
PredicateNode-discrete = hlevel ℕ_discrete

-- A `Vec<PredicateNode>` as a list, and back.
abbrev pub to_list : Nodes → List PredicateNode
to_list nil = []
to_list (cons n ns) = n ∷ to_list ns

abbrev pub of_list : List PredicateNode → Nodes
of_list [] = nil
of_list (n ∷ ns) = cons n (of_list ns)

-- `MatcherCost`: a `u8`. The sum of the children's costs is a `u16`, which wraps in a release build,
-- and is then capped.
abbrev pub method_cost : MethodMatcher → ℕ
method_cost _ = 1

abbrev pub header_cost : HeaderMatcher → ℕ
header_cost (exact _ _) = 1
header_cost (present _) = 1
header_cost (prefix _ _) = 2
header_cost (regex _ _) = 10

unfoldable mutual
  pub cost : PredicateNode → ℕ
  cost always = 0
  cost never = 0
  cost (method m) = method_cost m
  cost (header h) = header_cost h
  cost (and_of ns) = min (cost_sum ns) 255
  cost (or_of ns) = min (cost_sum ns) 255
  cost (not_of n) = cost n

  pub cost_sum : Nodes → ℕ
  cost_sum nil = 0
  cost_sum (cons n ns) = (cost n + cost_sum ns) % 65536

abbrev pub is_always : PredicateNode → Bool
is_always always = true
is_always _ = false

abbrev pub is_never : PredicateNode → Bool
is_never never = true
is_never _ = false

-- Step 2 of `normalize_and` and of `normalize_or`, on one child.
abbrev pub and_parts : PredicateNode → List PredicateNode
and_parts (and_of inner) = to_list inner
and_parts other = other ∷ []

abbrev pub or_parts : PredicateNode → List PredicateNode
or_parts (or_of inner) = to_list inner
or_parts other = other ∷ []

-- `==` on nodes is derived: structural equality.
unfoldable pub node_eq : PredicateNode → PredicateNode → Bool
unfolding PredicateNode-discrete
node_eq a b = elim (PredicateNode-discrete a b) [ yes _ ↦ true | no _ ↦ false ]

-- Steps 2 to 7, on lists: flatten one level, a stable sort by cost, and `Vec::dedup`, which drops an
-- element equal to the one before it.
unfoldable pub flatten_by :
    (PredicateNode → List PredicateNode) → List PredicateNode → List PredicateNode
flatten_by parts [] = []
flatten_by parts (n ∷ ns) = parts n ++ flatten_by parts ns

unfoldable pub insert_by_cost : PredicateNode → List PredicateNode → List PredicateNode
insert_by_cost n [] = n ∷ []
insert_by_cost n (k ∷ ks) =
    let later = insert_by_cost n ks in if leb (cost n) (cost k) then n ∷ k ∷ ks else k ∷ later

unfoldable pub sort_by_cost : List PredicateNode → List PredicateNode
unfolding insert_by_cost cost
sort_by_cost [] = []
sort_by_cost (n ∷ ns) = insert_by_cost n (sort_by_cost ns)

unfoldable pub dedup_from : PredicateNode → List PredicateNode → List PredicateNode
dedup_from last [] = []
dedup_from last (n ∷ ns) = elim (node_eq n last) [
  | true ↦ dedup_from last ns
  | false ↦ n ∷ dedup_from n ns
]

unfoldable pub dedup : List PredicateNode → List PredicateNode
unfolding dedup_from
dedup [] = []
dedup (n ∷ ns) = n ∷ dedup_from n ns

unfoldable pub tidy : (PredicateNode → Bool) → List PredicateNode → List PredicateNode
unfolding sort_by_cost dedup
tidy keep ns = dedup (sort_by_cost (retain keep ns))

abbrev pub simplify_and : List PredicateNode → PredicateNode
simplify_and [] = always
simplify_and (n ∷ []) = n
simplify_and (n ∷ k ∷ ks) = and_of (of_list (n ∷ k ∷ ks))

abbrev pub simplify_or : List PredicateNode → PredicateNode
simplify_or [] = never
simplify_or (n ∷ []) = n
simplify_or (n ∷ k ∷ ks) = or_of (of_list (n ∷ k ∷ ks))

unfoldable pub normalize_and : List PredicateNode → PredicateNode
unfolding flatten_by tidy
normalize_and normalized =
    let flattened = flatten_by and_parts normalized in
    if any is_never flattened then never else simplify_and (tidy (λ n. not (is_always n)) flattened)

unfoldable pub normalize_or : List PredicateNode → PredicateNode
unfolding flatten_by tidy
normalize_or normalized =
    let flattened = flatten_by or_parts normalized in
    if any is_always flattened then always else simplify_or (tidy (λ n. not (is_never n)) flattened)

unfoldable pub normalize_not : PredicateNode → PredicateNode
normalize_not always = never
normalize_not never = always
normalize_not (not_of inner) = inner
normalize_not other = not_of other

unfoldable mutual
  pub normalize : PredicateNode → PredicateNode
  normalize (and_of ns) = normalize_and (normalize_all ns)
  normalize (or_of ns) = normalize_or (normalize_all ns)
  normalize (not_of n) = normalize_not (normalize n)
  normalize other = other

  pub normalize_all : Nodes → List PredicateNode
  normalize_all nil = []
  normalize_all (cons n ns) = normalize n ∷ normalize_all ns
