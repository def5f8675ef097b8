-- ===== src/LoadBalance/Share.antt =====
-- How often each endpoint is selected in one round.
use native.Mathlib.Nat.{mod-eq_of_lt}
use pavis.Prelude.{
  ℕ, zero, suc, ◌+◌, ◌-◌, ◌%◌, ◌^◌, ◌≤◌, ◌<◌, false, Option, none, some, List, [], ◌∷◌, ltb, ◌==◌,
  if◌then◌else◌, ◌≡◌, refl, ap, ◌∙◌, get_elem?, arith,
}
use pavis.LoadBalance.{Endpoint, round_robin, BinarySearch, build_state_parts, select_index}
use pavis.LoadBalance.Owner.{IsSearch, sum_of, owner, select_index-owner, total_weight_lem}

-- How many of the first numbers are given an index.
abbrev pub tally : (ℕ → ℕ) → ℕ → ℕ → ℕ
tally f index zero = 0
tally f index (suc n) = (if f n == index then 1 else 0) + tally f index n

tally-cong :
    (f g : ℕ → ℕ) (index n : ℕ) → ((p : ℕ) → p < n → f p ≡ g p) → tally f index n ≡ tally g index n
tally-cong f g index zero same = refl
tally-cong f g index (suc n) same =
    rw (same n (omega arith), tally-cong f g index n (λ p lt. same p (omega arith))) refl

abbrev pub weight_of : Option Endpoint → ℕ
weight_of none = 0
weight_of (some e) = e.weight

module _ (e : Endpoint) (es : List Endpoint) where
  owner-first : (p : ℕ) → p < e.weight → owner (e ∷ es) p ≡ 0
  owner-first p lt = ground arith

  owner-later : (n : ℕ) → owner (e ∷ es) (e.weight + n) ≡ suc (owner es n)
  owner-later n =
      let past : ltb (e.weight + n) e.weight ≡ false = ground arith in
      let rest : e.weight + n - e.weight ≡ n = omega arith in rw (past, rest) refl

  tally-first_below : (n : ℕ) → n ≤ e.weight → tally (owner (e ∷ es)) 0 n ≡ n
  tally-first_below zero le = refl
  tally-first_below (suc n) le =
      rw (owner-first n (omega arith), tally-first_below n (omega arith)) (omega arith)

  tally-later_below : (i n : ℕ) → n ≤ e.weight → tally (owner (e ∷ es)) (suc i) n ≡ 0
  tally-later_below i zero le = refl
  tally-later_below i (suc n) le =
      rw (owner-first n (omega arith), tally-later_below i n (omega arith)) (ground arith)

  -- The first endpoint takes what lies below its weight, the others what lies above.
  tally-first : (n : ℕ) → tally (owner (e ∷ es)) 0 (e.weight + n) ≡ e.weight
  tally-first zero =
      let whole : e.weight + 0 ≡ e.weight = omega arith in
      rw whole (tally-first_below e.weight (omega arith))
  tally-first (suc n) =
      let next : e.weight + suc n ≡ suc (e.weight + n) = omega arith in
      rw (next, owner-later n) (ground (arith, tally-first n))

  tally-later : (i n : ℕ) → tally (owner (e ∷ es)) (suc i) (e.weight + n) ≡ tally (owner es) i n
  tally-later i zero =
      let whole : e.weight + 0 ≡ e.weight = omega arith in
      rw whole (tally-later_below i e.weight (omega arith))
  tally-later i (suc n) =
      let next : e.weight + suc n ≡ suc (e.weight + n) = omega arith in
      rw (next, owner-later n, tally-later i n) (ground arith)

tally-owner :
    (es : List Endpoint) (i : ℕ) → tally (owner es) i (sum_of es) ≡ weight_of (get_elem? es i)
tally-owner [] i = refl
tally-owner (e ∷ es) zero = tally-first e es (sum_of es)
tally-owner (e ∷ es) (suc i) = tally-later e es i (sum_of es) ∙ tally-owner es i

pick_lem : (p total n : ℕ) → p < n → n < 2 ^ 32 → total ≡ n → p % 2 ^ 32 % total ≡ p
pick_lem p total n lt h same =
    let small : p % 2 ^ 32 ≡ p = omega (arith, h) in rw (small, same) (mod-eq_of_lt lt)

module _ (binary_search_by : BinarySearch) (search : IsSearch binary_search_by) where
  -- Where the weights sum up to a positive number of 32 bits (and random numbers are in their range),
  -- over one round of round robin, from counter 0, each endpoint is selected as often as its weight
  -- says, and no other index is.
  pub round_robin_shares :
      (es : List Endpoint) (random_range : ℕ → ℕ) (i : ℕ)
      → sum_of es < 2 ^ 32
      → 1 ≤ sum_of es
      → random_range (sum_of es) < sum_of es
      → let (weights, total) = build_state_parts es in
        tally
          (λ counter.
            (select_index binary_search_by round_robin es weights counter total random_range).0)
          i
          (sum_of es)
        ≡ weight_of (get_elem? es i)
  round_robin_shares es random_range i h pos inside =
      let (weights, total) = build_state_parts es in
      let same = total_weight_lem es h in
      let selected : ℕ → ℕ = λ counter.
        (select_index binary_search_by round_robin es weights counter total random_range).0 in
      let owned : (p : ℕ) → p < sum_of es → selected p ≡ owner es p = λ p lt.
        (select_index-owner binary_search_by search round_robin es p random_range h pos inside).0
        ∙ ap (owner es) (pick_lem p total (sum_of es) lt h same) in
      tally-cong selected (owner es) i (sum_of es) owned ∙ tally-owner es i
