-- ===== src/Upstream/Cluster.antt =====
-- crates/pavis/src/upstream/cluster/mod.rs and ClusterState of state.rs: the endpoints that can be
-- chosen, kept beside the health that they were computed from. Each operation is one step, and has
-- the times that `Instant::now()` reads in it as an argument. All hold the lock of the health for their
-- length but select_endpoint, which holds it in its refresh only and then loads the state: another
-- operation between the two is not modelled.
pub mod Current
pub mod Chosen
pub mod Ejection
use pavis.Prelude.{
  ℕ, Bool, true, false, Option, none, some, List, [], ◌∷◌, length, leb, ◌==◌, get_elem?,
  if◌then◌else◌,
}
use pavis.LoadBalance.{
  EndpointAddr, Endpoint, LoadBalancer, build_state_parts, BinarySearch, select_index,
}
use pavis.Upstream.Health
use pavis.Upstream.Health.{
  HealthState, mark_active_health, record_success, record_failure, clear_expired_ejections,
  eligible_endpoints,
}

pub data ActiveHealthCheck : Type 0 where
  disabled enabled : ActiveHealthCheck

pub data OutlierDetectionPolicy : Type 0 where
  outlier_disabled : OutlierDetectionPolicy
  outlier_enabled : (consecutive_errors eject_duration : ℕ) → OutlierDetectionPolicy

-- The fields of the configuration that choosing an endpoint reads.
pub record Upstream : Type 0 where
  pub balancer : LoadBalancer
  pub endpoints : List Endpoint
  pub health_check : ActiveHealthCheck
  pub outlier_detection : OutlierDetectionPolicy

pub data UpstreamOutcome : Type 0 where
  success failure : UpstreamOutcome

pub record ClusterState : Type 0 where
  pub endpoints : List Endpoint
  pub cumulative_weights : List ℕ
  pub total_weight : ℕ

pub record Cluster : Type 0 where
  pub config : Upstream
  pub rr_counter : ℕ
  pub state : ClusterState
  pub health : HealthState

-- The times that one operation reads, in their order.
pub record Readings : Type 0 where
  pub first : ℕ
  pub second : ℕ
  pub third : ℕ

unfoldable pub state_of : List Endpoint → ClusterState
state_of eligible =
    let (cumulative_weights, total_weight) = build_state_parts eligible in
    record {
      endpoints = eligible;
      cumulative_weights = cumulative_weights;
      total_weight = total_weight;
    }

unfoldable pub new : Upstream → (now : ℕ) → Cluster
new config now =
    let health = Health.new config.endpoints in
    record {
      config = config;
      rr_counter = 0;
      state = state_of (eligible_endpoints now health);
      health = health;
    }

abbrev pub with_health : HealthState → Cluster → Cluster
with_health health cluster = record {
  config = cluster.config;
  rr_counter = cluster.rr_counter;
  state = cluster.state;
  health = health;
}

-- Sets the health, too, on which `refresh_state_from_health` has the lock.
unfoldable pub refresh_state_from_health :
    (cleared_at listed_at : ℕ) → HealthState → Cluster → Cluster
refresh_state_from_health cleared_at listed_at health cluster =
    let health' = (clear_expired_ejections cleared_at health).1 in
    record {
      config = cluster.config;
      rr_counter = cluster.rr_counter;
      state = state_of (eligible_endpoints listed_at health');
      health = health';
    }

-- `if changed { self.refresh_state_from_health(&mut health) }`.
abbrev pub refreshed_if : Bool × HealthState → Readings → Cluster → Cluster
refreshed_if (changed, health) at cluster =
    if changed
    then refresh_state_from_health at.second at.third health cluster
    else with_health health cluster

unfoldable pub refresh_expired_ejections : Readings → Cluster → Cluster
refresh_expired_ejections at cluster =
    refreshed_if (clear_expired_ejections at.first cluster.health) at cluster

unfoldable pub update_endpoints : Readings → List Endpoint → Cluster → Cluster
update_endpoints at endpoints cluster =
    refresh_state_from_health at.second at.third (Health.update_endpoints endpoints cluster.health)
      cluster

unfoldable pub set_active_health : Readings → EndpointAddr → Bool → Cluster → Cluster
set_active_health at endpoint is_healthy cluster = elim cluster.config.health_check [
  | disabled ↦ cluster
  | enabled ↦ refreshed_if (mark_active_health endpoint is_healthy cluster.health) at cluster
]

abbrev pub recorded :
    EndpointAddr
    → UpstreamOutcome
    → (threshold eject_for now : ℕ) → HealthState
    → Bool × HealthState
recorded endpoint success threshold eject_for now health = record_success endpoint health
recorded endpoint failure threshold eject_for now health =
    record_failure endpoint threshold eject_for now health

unfoldable pub record_outcome : Readings → EndpointAddr → UpstreamOutcome → Cluster → Cluster
record_outcome at endpoint outcome cluster = elim cluster.config.outlier_detection [
  | outlier_disabled ↦ cluster
  | outlier_enabled threshold eject_for ↦
      refreshed_if (recorded endpoint outcome threshold eject_for at.first cluster.health) at
        cluster
]

module _ (binary_search_by : BinarySearch) where
  -- The endpoint that the refreshed cluster chooses, and the cluster after it.
  unfoldable pub select_endpoint :
      Readings → (random_range : ℕ → ℕ) → Cluster → Option Endpoint × Cluster
  select_endpoint at random_range cluster =
      let cluster' = refresh_expired_ejections at cluster in
      let state = cluster'.state in
      if length state.endpoints == 0
      then (none, cluster')
      else (let (index, counter) =
            select_index binary_search_by cluster'.config.balancer state.endpoints
              state.cumulative_weights cluster'.rr_counter state.total_weight random_range in
          (
            get_elem? state.endpoints index,
            record {
              config = cluster'.config;
              rr_counter = counter;
              state = state;
              health = cluster'.health;
            },
          ))
