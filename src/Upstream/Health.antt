-- ===== src/Upstream/Health.antt =====
-- crates/pavis/src/upstream/cluster/health.rs: the status that is kept of each endpoint. `now` is
-- what `Instant::now()` reads and a duration is a number, both in milliseconds.
pub mod Eligible
pub mod Carried
use pavis.Prelude.{
  ℕ, suc, ◌+◌, ◌-◌, ◌^◌, ◌≤◌, min, Bool, true, false, not, ◌&&◌, ◌||◌, Option, none, some, List, [],
  ◌∷◌, ◌++◌, leb, ◌==◌, if◌then◌else◌, retain,
}
use pavis.Prelude.Text.{Text, bytes}
use pavis.Prelude.Decimal.{decimal}
use pavis.Prelude.HashMap.{lookup, remove, replace, update, map_values, any_value}
use pavis.LoadBalance.{EndpointAddr, ip, dns, Endpoint}

abbrev pub EndpointKey : Type 0
EndpointKey = Text

unfoldable pub from_addr : EndpointAddr → EndpointKey
from_addr (ip address port) = address ++ bytes ":" ++ decimal port
from_addr (dns host port) = host ++ bytes ":" ++ decimal port

abbrev pub from_endpoint : Endpoint → EndpointKey
from_endpoint endpoint = from_addr endpoint.address

pub data ActiveHealth : Type 0 where
  healthy unhealthy : ActiveHealth

abbrev pub same_health : ActiveHealth → ActiveHealth → Bool
same_health healthy healthy = true
same_health unhealthy unhealthy = true
same_health _ _ = false

-- `consecutive_errors` is a `u32`.
pub record EndpointStatus : Type 0 where
  pub consecutive_errors : ℕ
  pub ejected_until : Option ℕ
  pub active_health : ActiveHealth

abbrev pub default_status : EndpointStatus
default_status = record { consecutive_errors = 0; ejected_until = none; active_health = healthy }

abbrev pub Statuses : Type 0
Statuses = List (EndpointKey × EndpointStatus)

pub record HealthState : Type 0 where
  pub endpoints : List Endpoint
  pub statuses : Statuses

abbrev collected : List Endpoint → Statuses → Statuses
collected [] statuses = statuses
collected (endpoint ∷ rest) statuses =
    collected rest (replace (from_endpoint endpoint) default_status statuses)

unfoldable pub new : List Endpoint → HealthState
new endpoints = record { endpoints = endpoints; statuses = collected endpoints [] }

abbrev pub unwrap_or_default : Option EndpointStatus → EndpointStatus
unwrap_or_default none = default_status
unwrap_or_default (some status) = status

-- The loop takes each status out of the old map.
abbrev pub carried : List Endpoint → (old new : Statuses) → Statuses
carried [] old statuses = statuses
carried (endpoint ∷ rest) old statuses =
    let key = from_endpoint endpoint in
    carried rest (remove key old) (replace key (unwrap_or_default (lookup key old)) statuses)

unfoldable pub update_endpoints : List Endpoint → HealthState → HealthState
update_endpoints endpoints health = record {
  endpoints = endpoints;
  statuses = carried endpoints health.statuses [];
}

-- The operations that follow return whether the eligible endpoints may have changed.
abbrev pub marked : Bool → ActiveHealth
marked true = healthy
marked false = unhealthy

abbrev pub with_health : ActiveHealth → EndpointStatus → EndpointStatus
with_health next status = record {
  consecutive_errors = status.consecutive_errors;
  ejected_until = status.ejected_until;
  active_health = next;
}

abbrev pub with_errors : ℕ → EndpointStatus → EndpointStatus
with_errors errors status = record {
  consecutive_errors = errors;
  ejected_until = status.ejected_until;
  active_health = status.active_health;
}

abbrev pub with_ejection : Option ℕ → EndpointStatus → EndpointStatus
with_ejection until status = record {
  consecutive_errors = 0;
  ejected_until = until;
  active_health = status.active_health;
}

abbrev pub with_statuses : Statuses → HealthState → HealthState
with_statuses statuses health = record { endpoints = health.endpoints; statuses = statuses }

unfoldable pub mark_active_health : EndpointAddr → Bool → HealthState → Bool × HealthState
mark_active_health endpoint is_healthy health =
    let key = from_addr endpoint in
    let next = marked is_healthy in
    elim (lookup key health.statuses) [
      | none ↦ (false, health)
      | some status ↦
          if same_health status.active_health next
          then (false, health)
          else (true, with_statuses (update key (with_health next) health.statuses) health)
    ]

unfoldable pub record_success : EndpointAddr → HealthState → Bool × HealthState
record_success endpoint health =
    let key = from_addr endpoint in
    elim (lookup key health.statuses) [
      | none ↦ (false, health)
      | some status ↦
          if status.consecutive_errors == 0
          then (false, health)
          else (true, with_statuses (update key (with_errors 0) health.statuses) health)
    ]

abbrev pub is_none : Option ℕ → Bool
is_none none = true
is_none (some _) = false

abbrev pub saturating_add : ℕ → ℕ → ℕ
saturating_add a b = min (a + b) (2 ^ 32 - 1)

unfoldable pub record_failure :
    EndpointAddr → (threshold eject_for now : ℕ) → HealthState → Bool × HealthState
record_failure endpoint threshold eject_for now health =
    let key = from_addr endpoint in
    elim (lookup key health.statuses) [
      | none ↦ (false, health)
      | some status ↦
          let errors = saturating_add status.consecutive_errors 1 in
          if leb threshold errors && is_none status.ejected_until
          then (
            true,
            with_statuses (update key (with_ejection (some (now + eject_for))) health.statuses)
                health,
          )
          else (false, with_statuses (update key (with_errors errors) health.statuses) health)
    ]

abbrev pub is_expired : ℕ → EndpointStatus → Bool
is_expired now status = elim status.ejected_until [ none ↦ false | some until ↦ leb until now ]

abbrev pub cleared : ℕ → EndpointStatus → EndpointStatus
cleared now status = if is_expired now status then with_ejection none status else status

unfoldable pub clear_expired_ejections : (now : ℕ) → HealthState → Bool × HealthState
clear_expired_ejections now health = (
  any_value (is_expired now) health.statuses,
  with_statuses (map_values (cleared now) health.statuses) health,
)

abbrev pub may_serve : ℕ → EndpointStatus → Bool
may_serve now status =
    same_health status.active_health healthy
    && elim status.ejected_until [ none ↦ true | some until ↦ leb until now ]

abbrev pub serves : ℕ → Option EndpointStatus → Bool
serves now none = true
serves now (some status) = may_serve now status

unfoldable pub eligible_endpoints : (now : ℕ) → HealthState → List Endpoint
eligible_endpoints now health =
    retain (λ endpoint. serves now (lookup (from_endpoint endpoint) health.statuses))
      health.endpoints
