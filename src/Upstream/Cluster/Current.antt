-- ===== src/Upstream/Cluster/Current.antt =====
-- Sequences of operations on a cluster, and the state that stands beside the health after them.
use pavis.Prelude.{
  ℕ, ◌≤◌, Bool, true, false, List, [], ◌∷◌, ◌≡◌, refl, ◌∙◌, ap, sym, inl, inr, Bool-cases, ◌⊎◌,
  arith, length, ◌==◌,
}
use pavis.LoadBalance.{EndpointAddr, Endpoint, BinarySearch}
use pavis.Upstream.Health.{
  HealthState, clear_expired_ejections, eligible_endpoints, mark_active_health,
}
use pavis.Upstream.Health.Eligible.{
  eligible-clear, eligible-unexpired, eligible-record_failure, record_success_unchanged,
  mark_active_health_unchanged,
}
use pavis.Upstream.Cluster.{
  Upstream, ActiveHealthCheck, OutlierDetectionPolicy, UpstreamOutcome, success, failure, disabled,
  enabled, outlier_disabled, outlier_enabled, Cluster, Readings, state_of, new,
  refresh_state_from_health, refreshed_if, refresh_expired_ejections, update_endpoints,
  set_active_health, record_outcome, recorded, select_endpoint,
}

-- One operation, with what it reads.
pub data Event : Type 0 where
  selected : (at : Readings) → (random_range : ℕ → ℕ) → Event
  updated : (at : Readings) → (endpoints : List Endpoint) → Event
  health_checked : (at : Readings) → (endpoint : EndpointAddr) → (is_healthy : Bool) → Event
  observed : (at : Readings) → (endpoint : EndpointAddr) → (outcome : UpstreamOutcome) → Event

abbrev pub readings : Event → Readings
readings (selected at random_range) = at
readings (updated at endpoints) = at
readings (health_checked at endpoint is_healthy) = at
readings (observed at endpoint outcome) = at

abbrev pub apply : BinarySearch → Event → Cluster → Cluster
apply search (selected at random_range) c = (select_endpoint search at random_range c).1
apply search (updated at endpoints) c = update_endpoints at endpoints c
apply search (health_checked at endpoint is_healthy) c = set_active_health at endpoint is_healthy c
apply search (observed at endpoint outcome) c = record_outcome at endpoint outcome c

abbrev pub run : BinarySearch → List Event → Cluster → Cluster
run search [] c = c
run search (event ∷ events) c = run search events (apply search event c)

-- The clock does not run backwards.
abbrev pub IsAfter : ℕ → Readings → Type 0
IsAfter now at = (now ≤ at.first) × (at.first ≤ at.second) × (at.second ≤ at.third)

abbrev pub Chronological : ℕ → List Event → Type 0
Chronological now [] = Unit
Chronological now (event ∷ events) =
    IsAfter now (readings event) × Chronological (readings event).third events

abbrev pub end_of : ℕ → List Event → ℕ
end_of now [] = now
end_of now (event ∷ events) = end_of (readings event).third events

-- The state lists the endpoints that were eligible at some time up to `now`.
abbrev pub IsCurrent : ℕ → Cluster → Type 0
IsCurrent now c = (t : ℕ) × (t ≤ now) × (c.state ≡ state_of (eligible_endpoints t c.health))

later : (now next : ℕ) (c : Cluster) → now ≤ next → IsCurrent now c → IsCurrent next c
later now next c h (t, le, e) = (t, omega (arith, le, h), e)

pub new-IsCurrent : (config : Upstream) (now : ℕ) → IsCurrent now (new config now)
unfolding new
new-IsCurrent config now = (now, omega arith, refl)

refreshed_if-IsCurrent :
    (b : Bool) (health : HealthState) (at : Readings) (t : ℕ) (c : Cluster)
    → t ≤ at.third
    → (b ≡ false → c.state ≡ state_of (eligible_endpoints t health))
    → IsCurrent at.third (refreshed_if (b, health) at c)
unfolding refresh_state_from_health
refreshed_if-IsCurrent true health at t c le same = (at.third, omega arith, refl)
refreshed_if-IsCurrent false health at t c le same = (t, le, same refl)

-- After the refresh that comes first in each choice, the state is that of a time of this refresh.
pub refresh-eligible :
    (now : ℕ) (at : Readings) (c : Cluster)
    → IsAfter now at
    → IsCurrent now c
    → (t : ℕ) × (at.first ≤ t)
      × (t ≤ at.third)
      × ((refresh_expired_ejections at c).state ≡ state_of (eligible_endpoints t c.health))
unfolding refresh_expired_ejections refresh_state_from_health
refresh-eligible now at c (after, first, second) (t, le, e) =
    let cleared = (clear_expired_ejections at.first c.health).1 in
    elim (Bool-cases (clear_expired_ejections at.first c.health).0) [
      | inl changed ↦ (
        at.third,
        omega arith,
        omega arith,
        rw (changed, refresh_expired_ejections)
            (ap state_of (
              eligible-clear at.third at.second cleared second
              ∙ eligible-clear at.third at.first c.health (omega arith))),
      )
      | inr unchanged ↦ (
        at.first,
        omega arith,
        omega arith,
        rw (unchanged, refresh_expired_ejections)
            (e ∙ ap state_of (eligible-unexpired t at.first c.health (omega arith) unchanged)),
      )
    ]

refresh_expired_ejections-IsCurrent :
    (now : ℕ) (at : Readings) (c : Cluster)
    → IsAfter now at
    → IsCurrent now c
    → IsCurrent at.third (refresh_expired_ejections at c)
unfolding refresh_expired_ejections
refresh_expired_ejections-IsCurrent now at c (after, first, second) (t, le, e) =
    let (changed, health) = clear_expired_ejections at.first c.health in
    refreshed_if-IsCurrent changed health at at.first c (omega arith) λ unchanged.
      e
      ∙ ap state_of (
          eligible-unexpired t at.first c.health (omega arith) unchanged
          ∙ sym (eligible-clear at.first at.first c.health (omega arith)))

health_check_cases : (h : ActiveHealthCheck) → (h ≡ disabled) ⊎ (h ≡ enabled)
health_check_cases disabled = inl refl
health_check_cases enabled = inr refl

outlier_cases :
    (policy : OutlierDetectionPolicy)
    → (policy ≡ outlier_disabled)
      ⊎ ((threshold : ℕ) × (eject_for : ℕ) × (policy ≡ outlier_enabled threshold eject_for))
outlier_cases outlier_disabled = inl refl
outlier_cases (outlier_enabled threshold eject_for) = inr (threshold, eject_for, refl)

-- An operation that reports no change leaves the same endpoints eligible.
abbrev Keeps : Bool × HealthState → HealthState → Type 0
Keeps (changed, after) before =
    (t : ℕ) → changed ≡ false → eligible_endpoints t after ≡ eligible_endpoints t before

recorded-Keeps :
    (endpoint : EndpointAddr) (outcome : UpstreamOutcome) (threshold eject_for now : ℕ)
    (health : HealthState)
    → Keeps (recorded endpoint outcome threshold eject_for now health) health
recorded-Keeps endpoint success threshold eject_for now health t unchanged =
    ap (eligible_endpoints t) (record_success_unchanged endpoint health unchanged)
recorded-Keeps endpoint failure threshold eject_for now health t unchanged =
    eligible-record_failure t endpoint threshold eject_for now health unchanged

refreshed_if-Keeps :
    (now : ℕ) (done : Bool × HealthState) (at : Readings) (c : Cluster)
    → IsAfter now at
    → IsCurrent now c
    → Keeps done c.health
    → IsCurrent at.third (refreshed_if done at c)
refreshed_if-Keeps now (changed, health) at c (after, first, second) (t, le, e) keeps =
    refreshed_if-IsCurrent changed health at t c (omega arith)
      λ unchanged. e ∙ ap state_of (sym (keeps t unchanged))

set_active_health-IsCurrent :
    (now : ℕ) (at : Readings) (endpoint : EndpointAddr) (is_healthy : Bool) (c : Cluster)
    → IsAfter now at
    → IsCurrent now c
    → IsCurrent at.third (set_active_health at endpoint is_healthy c)
unfolding set_active_health
set_active_health-IsCurrent now at endpoint is_healthy c after current =
    elim (health_check_cases c.config.health_check) [
      | inl e ↦ rw (e, set_active_health) (later now at.third c (omega (arith, after)) current)
      | inr e ↦
          rw (e, set_active_health)
            (refreshed_if-Keeps now (mark_active_health endpoint is_healthy c.health) at c after
              current
              λ t unchanged.
                ap (eligible_endpoints t)
                  (mark_active_health_unchanged endpoint is_healthy c.health unchanged))
    ]

record_outcome-IsCurrent :
    (now : ℕ) (at : Readings) (endpoint : EndpointAddr) (outcome : UpstreamOutcome) (c : Cluster)
    → IsAfter now at
    → IsCurrent now c
    → IsCurrent at.third (record_outcome at endpoint outcome c)
unfolding record_outcome
record_outcome-IsCurrent now at endpoint outcome c after current =
    elim (outlier_cases c.config.outlier_detection) [
      | inl e ↦ rw (e, record_outcome) (later now at.third c (omega (arith, after)) current)
      | inr (threshold, eject_for, e) ↦
          rw (e, record_outcome)
            (refreshed_if-Keeps now
              (recorded endpoint outcome threshold eject_for at.first c.health) at c after current
              (recorded-Keeps endpoint outcome threshold eject_for at.first c.health))
    ]

select_endpoint-IsCurrent :
    (search : BinarySearch) (now : ℕ) (at : Readings) (random_range : ℕ → ℕ) (c : Cluster)
    → IsAfter now at
    → IsCurrent now c
    → IsCurrent at.third (select_endpoint search at random_range c).1
unfolding select_endpoint
select_endpoint-IsCurrent search now at random_range c after current =
    let current' = refresh_expired_ejections-IsCurrent now at c after current in
    elim (Bool-cases (length (refresh_expired_ejections at c).state.endpoints == 0)) [
      | inl e ↦ rw (e, select_endpoint) current'
      | inr e ↦ rw (e, select_endpoint) current'
    ]

-- Every operation at a time after `now` leaves a state that is current again.
pub apply-IsCurrent :
    (search : BinarySearch) (now : ℕ) (event : Event) (c : Cluster)
    → IsAfter now (readings event)
    → IsCurrent now c
    → IsCurrent (readings event).third (apply search event c)
unfolding update_endpoints refresh_state_from_health
apply-IsCurrent search now (selected at random_range) c after current =
    select_endpoint-IsCurrent search now at random_range c after current
apply-IsCurrent search now (updated at endpoints) c after current = (at.third, omega arith, refl)
apply-IsCurrent search now (health_checked at endpoint is_healthy) c after current =
    set_active_health-IsCurrent now at endpoint is_healthy c after current
apply-IsCurrent search now (observed at endpoint outcome) c after current =
    record_outcome-IsCurrent now at endpoint outcome c after current

pub run-IsCurrent :
    (search : BinarySearch) (now : ℕ) (events : List Event) (c : Cluster)
    → Chronological now events
    → IsCurrent now c
    → IsCurrent (end_of now events) (run search events c)
run-IsCurrent search now [] c h current = current
run-IsCurrent search now (event ∷ events) c (after, h) current =
    run-IsCurrent search (readings event).third events (apply search event c) h
      (apply-IsCurrent search now event c after current)
