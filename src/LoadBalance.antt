-- ===== src/LoadBalance.antt =====
-- crates/pavis/src/upstream/load_balance.rs and build_state_parts of
-- crates/pavis/src/upstream/cluster/state.rs: choosing an endpoint by weight. The random number and the
-- binary search of the standard library are arguments.
pub mod Linear
pub mod Owner
pub mod Share
mod Tests
use pavis.Prelude.{
  ℕ, ◌+◌, ◌-◌, ◌%◌, ◌^◌, min, Bool, true, false, ◌||◌, List, [], ◌∷◌, length, leb, ◌==◌,
  if◌then◌else◌,
}
use pavis.Prelude.Text.{Text}

-- An IP address is the text that it is printed as.
pub data EndpointAddr : Type 0 where
  ip : (address : Text) → (port : ℕ) → EndpointAddr
  dns : (host : Text) → (port : ℕ) → EndpointAddr

-- The weight is a `NonZeroU16`.
pub record Endpoint : Type 0 where
  pub address : EndpointAddr
  pub weight : ℕ

pub data LoadBalancer : Type 0 where
  round_robin random least_request : LoadBalancer

-- The sum is a `u32`.
cumulative_from : ℕ → List Endpoint → List ℕ
cumulative_from sum [] = []
cumulative_from sum (e ∷ es) =
    let next = (sum + e.weight) % 2 ^ 32 in next ∷ cumulative_from next es

total_from : ℕ → List Endpoint → ℕ
total_from sum [] = sum
total_from sum (e ∷ es) = total_from ((sum + e.weight) % 2 ^ 32) es

pub build_state_parts : List Endpoint → List ℕ × ℕ
unfolding cumulative_from total_from
build_state_parts endpoints = (cumulative_from 0 endpoints, total_from 0 endpoints)

pub data Ordering : Type 0 where
  less equal greater : Ordering

-- `binary_search_by`: the index that `Ok` or `Err` holds.
abbrev pub BinarySearch : Type 0
BinarySearch = (ℕ → Ordering) → List ℕ → ℕ

module _ (binary_search_by : BinarySearch) where
  pub find_index : List ℕ → ℕ → ℕ
  find_index cumulative_weights pick =
      min (binary_search_by (λ w. if leb w pick then less else greater) cumulative_weights)
        (length cumulative_weights - 1)

  -- The index, and the counter after it, which wraps around.
  pub select_index :
      LoadBalancer
      → List Endpoint
      → List ℕ
      → (counter : ℕ) → (total_weight : ℕ) → (random_range : ℕ → ℕ) → ℕ × ℕ
  unfolding find_index
  select_index lb endpoints cumulative_weights counter total_weight random_range =
      if length endpoints == 0 || total_weight == 0 then (0, counter) else elim lb [
        | round_robin ↦ (
          find_index cumulative_weights (counter % 2 ^ 32 % total_weight),
          (counter + 1) % 2 ^ 64,
        )
        | random ↦ (find_index cumulative_weights (random_range total_weight), counter)
        | least_request ↦ (find_index cumulative_weights (random_range total_weight), counter)
      ]
