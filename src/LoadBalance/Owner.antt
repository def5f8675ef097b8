-- ===== src/LoadBalance/Owner.antt =====
-- The shares of the endpoints in the total weight, and the search in the cumulative weights.
use mathlib.Core.Path.{subst}
use mathlib.Core.List.{append_assoc}
use native.Mathlib.Nat.{mod-lt}
use pavis.Prelude.{
  ℕ, suc, ◌+◌, ◌-◌, ◌%◌, ◌^◌, ◌≤◌, ◌<◌, List, [], ◌∷◌, ◌++◌, All, length, ltb, leb, if◌then◌else◌,
  ◌≡◌, inl, inr, refl, ◌∙◌, Bool-cases, All-append, length-append, arith,
}
use pavis.LoadBalance.{
  Endpoint, LoadBalancer, round_robin, random, least_request, cumulative_from, total_from,
  build_state_parts, Ordering, less, greater, BinarySearch, find_index, select_index,
}

-- The search returns the place between the elements that are less and those that are greater.
pub record IsSearch (binary_search_by : BinarySearch) : Type 0 where
  pub place :
      (test : ℕ → Ordering) (xs ys : List ℕ)
      → All (λ x. test x ≡ less) xs
      → All (λ y. test y ≡ greater) ys
      → binary_search_by test (xs ++ ys) ≡ length xs

abbrev pub sum_of : List Endpoint → ℕ
sum_of [] = 0
sum_of (e ∷ es) = e.weight + sum_of es

-- The endpoints take consecutive picks, each as many as its weight.
abbrev pub owner : List Endpoint → ℕ → ℕ
owner [] pick = 0
owner (e ∷ es) pick =
    let later = owner es (pick - e.weight) in if ltb pick e.weight then 0 else suc later

abbrev compared : ℕ → ℕ → Ordering
compared pick w = if leb w pick then less else greater

owner-bound : (es : List Endpoint) (pick : ℕ) → pick < sum_of es → owner es pick < length es
owner-bound [] pick h = absurd (omega arith)
owner-bound (e ∷ es) pick h = ground (arith, owner-bound es (pick - e.weight))

total_from_lem :
    (s : ℕ) (es : List Endpoint) → s + sum_of es < 2 ^ 32 → total_from s es ≡ s + sum_of es
unfolding total_from
total_from_lem s [] h = omega arith
total_from_lem s (e ∷ es) h =
    let small : (s + e.weight) % 2 ^ 32 ≡ s + e.weight = omega (arith, h) in
    rw small (total_from_lem (s + e.weight) es (omega (arith, h)) ∙ omega arith)

pub total_weight_lem :
    (es : List Endpoint) → sum_of es < 2 ^ 32 → (build_state_parts es).1 ≡ sum_of es
unfolding build_state_parts
total_weight_lem es h = omega (arith, total_from_lem 0 es (omega (arith, h)))

length-cumulative_from : (s : ℕ) (es : List Endpoint) → length (cumulative_from s es) ≡ length es
unfolding cumulative_from
length-cumulative_from s [] = refl
length-cumulative_from s (e ∷ es) =
    ground (arith, length-cumulative_from ((s + e.weight) % 2 ^ 32) es)

above :
    (pick s : ℕ) (es : List Endpoint)
    → s + sum_of es < 2 ^ 32
    → pick < s
    → All (λ w. compared pick w ≡ greater) (cumulative_from s es)
unfolding cumulative_from
above pick s [] h less_than = tt
above pick s (e ∷ es) h less_than =
    let small : (s + e.weight) % 2 ^ 32 ≡ s + e.weight = omega (arith, h) in
    rw small (ground arith, above pick (s + e.weight) es (omega (arith, h)) (omega arith))

search_lem :
    (binary_search_by : BinarySearch) (search : IsSearch binary_search_by) (pick s : ℕ)
    (es : List Endpoint) (before : List ℕ)
    → All (λ w. compared pick w ≡ less) before
    → s + sum_of es < 2 ^ 32
    → s ≤ pick
    → pick < s + sum_of es
    → binary_search_by (compared pick) (before ++ cumulative_from s es)
      ≡ length before + owner es (pick - s)
unfolding cumulative_from
search_lem bs search pick s [] before b h le lt = absurd (omega arith)
search_lem bs search pick s (e ∷ es) before b h le lt =
    let next = s + e.weight in
    let small : next % 2 ^ 32 ≡ next = omega (arith, h) in
    elim (Bool-cases (ltb (pick - s) e.weight)) [
      | inl inside ↦
          let past : pick < next = ground (arith, inside, le) in
          let rest : All (λ w. compared pick w ≡ greater) (next ∷ cumulative_from next es) =
            (ground (arith, past), above pick next es (omega (arith, h)) past) in
          rw (small, inside)
            (search.place (compared pick) before (next ∷ cumulative_from next es) b rest
              ∙ omega arith)
      | inr beyond ↦
          let reached : next ≤ pick = ground (arith, beyond, le) in
          let here : compared pick next ≡ less = ground (arith, reached) in
          let before' = before ++ next ∷ [] in
          let rest = cumulative_from next es in
          let found =
            search_lem bs search pick next es before'
              (All-append (λ w. compared pick w ≡ less) before (next ∷ []) b (here, tt))
              (omega (arith, h)) reached (omega (arith, lt)) in
          let len = length-append before (next ∷ []) in
          let index : pick - next ≡ pick - s - e.weight = omega arith in
          let placed : bs (compared pick) (before ++ next ∷ rest)
              ≡ length before' + owner es (pick - next) =
            subst (λ l. bs (compared pick) l ≡ length before' + owner es (pick - next))
              (append_assoc before (next ∷ []) rest) found in
          rw (small, beyond) (placed ∙ rw index (omega (arith, len)))
    ]

module _ (binary_search_by : BinarySearch) (search : IsSearch binary_search_by) where
  find_index_lem :
      (es : List Endpoint) (pick : ℕ)
      → sum_of es < 2 ^ 32
      → pick < sum_of es
      → find_index binary_search_by (cumulative_from 0 es) pick ≡ owner es pick
  unfolding find_index
  find_index_lem es pick h lt =
      let found =
        search_lem binary_search_by search pick 0 es [] tt (omega (arith, h)) (omega arith)
          (omega (arith, lt)) in
      let index : pick - 0 ≡ pick = omega arith in
      let placed : binary_search_by (compared pick) (cumulative_from 0 es) ≡ 0 + owner es pick =
        subst (λ n. binary_search_by (compared pick) (cumulative_from 0 es) ≡ 0 + owner es n) index
          found in
      rw (length-cumulative_from 0 es) (omega (arith, placed, owner-bound es pick lt))

  -- The pick of each balancer; `LeastRequest` is answered as `Random`.
  abbrev pub picked : LoadBalancer → (counter : ℕ) → (total_weight : ℕ) → (ℕ → ℕ) → ℕ
  picked round_robin counter total_weight random_range = counter % 2 ^ 32 % total_weight
  picked random counter total_weight random_range = random_range total_weight
  picked least_request counter total_weight random_range = random_range total_weight

  picked-bound :
      (lb : LoadBalancer) (counter total : ℕ) (random_range : ℕ → ℕ)
      → 1 ≤ total
      → random_range total < total
      → picked lb counter total random_range < total
  picked-bound round_robin counter total random_range pos inside = mod-lt (counter % 2 ^ 32) pos
  picked-bound random counter total random_range pos inside = inside
  picked-bound least_request counter total random_range pos inside = inside

  selects :
      (lb : LoadBalancer) (es : List Endpoint) (weights : List ℕ) (counter total : ℕ)
      (random_range : ℕ → ℕ)
      → 1 ≤ length es
      → 1 ≤ total
      → (select_index binary_search_by lb es weights counter total random_range).0
        ≡ find_index binary_search_by weights (picked lb counter total random_range)
  unfolding select_index
  selects round_robin es weights counter total random_range l t = ground arith
  selects random es weights counter total random_range l t = ground arith
  selects least_request es weights counter total random_range l t = ground arith

  sum_of-positive : (es : List Endpoint) → 1 ≤ sum_of es → 1 ≤ length es
  sum_of-positive [] pos = absurd (omega arith)
  sum_of-positive (e ∷ es) pos = omega arith

  -- Where the weights sum up to a positive number of 32 bits and random numbers are in their range,
  -- the index that is selected is that of an endpoint, namely the one in whose share the pick is.
  pub select_index-owner :
      (lb : LoadBalancer) (es : List Endpoint) (counter : ℕ) (random_range : ℕ → ℕ)
      → sum_of es < 2 ^ 32
      → 1 ≤ sum_of es
      → random_range (sum_of es) < sum_of es
      → let (weights, total) = build_state_parts es in
        let index = (select_index binary_search_by lb es weights counter total random_range).0 in
        (index ≡ owner es (picked lb counter total random_range)) × (index < length es)
  unfolding build_state_parts
  select_index-owner lb es counter random_range h pos inside =
      let total : total_from 0 es ≡ sum_of es =
        omega (arith, total_from_lem 0 es (omega (arith, h))) in
      let pick = picked lb counter (sum_of es) random_range in
      let bound = picked-bound lb counter (sum_of es) random_range pos inside in
      let index =
        selects lb es (cumulative_from 0 es) counter (sum_of es) random_range
          (sum_of-positive es pos) pos
        ∙ find_index_lem es pick h bound in
      rw total (index, omega (arith, index, owner-bound es pick bound))
