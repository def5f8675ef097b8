-- ===== src/Upstream/Cluster/Chosen.antt =====
-- Which endpoint a cluster chooses, after any sequence of operations.
use pavis.Prelude.{ℕ, ◌≤◌, ◌<◌, Bool, true, false, Option, none, some, ◌≡◌, All, get_elem?}
use pavis.Prelude.HashMap.{lookup}
use pavis.LoadBalance.{Endpoint, BinarySearch, select_index}
use pavis.LoadBalance.Owner.{IsSearch}
use pavis.Upstream.Health.{from_endpoint, HealthState, serves}
use pavis.Upstream.Health.Eligible.{Mem}
use pavis.Upstream.Cluster.{Upstream, ClusterState, Cluster}

-- `t` is a time at which the endpoint is a healthy one that is not ejected, or there is none such.
abbrev pub status_serves : ℕ → HealthState → Endpoint → Bool
status_serves t health endpoint = serves t (lookup (from_endpoint endpoint) health.statuses)

abbrev pub IsServed : ℕ → HealthState → Option Endpoint → Type 0
IsServed t health none = All (λ e. status_serves t health e ≡ false) health.endpoints
IsServed t health (some e) = Mem e health.endpoints × (status_serves t health e ≡ true)

abbrev pub IsRandom : (ℕ → ℕ) → Type 0
IsRandom random_range = (n : ℕ) → 1 ≤ n → random_range n < n

module _ (search : BinarySearch) (is_search : IsSearch search) where
  abbrev index_of : Upstream → ℕ → (ℕ → ℕ) → ClusterState → Option Endpoint
  index_of config counter random_range state =
      get_elem? state.endpoints
        (select_index search config.balancer state.endpoints state.cumulative_weights counter
          state.total_weight random_range).0
