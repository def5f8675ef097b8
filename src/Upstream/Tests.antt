-- ===== src/Upstream/Tests.antt =====
-- Two endpoints with outlier detection, and the theorems at them.
use pavis.Prelude.{
  zero, suc, ℕ, ◌+◌, ◌-◌, ◌≤◌, none, some, List, [], ◌∷◌, ◌≡◌, ◌≢◌, refl, All, if◌then◌else◌, arith,
}
use pavis.Prelude.Text.{bytes}
use pavis.Prelude.HashMap.{lookup}
use pavis.LoadBalance.{EndpointAddr, Endpoint, dns, round_robin}
use pavis.Prelude.Decimal.{decimal, digits}
use mathlib.Core.Option.{Option, none, some, some-injective}
use pavis.Upstream.Pool.{
  Semaphore, Limits, World, world, active, calling, attempted, Reachable, initially, next, called,
  attempts, start_pool_use,
}
use pavis.Upstream.Pool.Counts.{count, is_active, has_place, is_queued}
use pavis.Upstream.Pool.Counted.{IsSemaphore, pool_is_bounded}
use pavis.Upstream.Health
use pavis.Upstream.Health.{
  from_addr, from_endpoint, default_status, HealthState, with_errors, unwrap_or_default,
}
use pavis.Upstream.Health.Carried.{IsDistinct, has_key, lookup-update_endpoints}
use pavis.Upstream.Cluster
use pavis.Upstream.Cluster.{
  ActiveHealthCheck, disabled, outlier_enabled, failure, Upstream, Cluster, Readings, new,
  record_outcome,
}
use pavis.Upstream.Cluster.Current.{Event, observed}
use pavis.Upstream.Cluster.Ejection.{HasFailed, failing, IsEjected, failing-ejects}

abbrev a_address : EndpointAddr
a_address = dns (bytes "a") 80

abbrev a : Endpoint
a = record { address = a_address; weight = 2 }

abbrev b : Endpoint
b = record { address = dns (bytes "b") 8080; weight = 1 }

abbrev two : Upstream
two = record {
  balancer = round_robin;
  endpoints = a ∷ b ∷ [];
  health_check = disabled;
  outlier_detection = outlier_enabled 2 50;
}

abbrev reading : ℕ → Readings
reading n = record { first = n; second = n + 1; third = n + 2 }

abbrev below : ℕ → ℕ
below n = n - 1

port_text : from_endpoint b ≡ bytes "b:8080"
unfolding from_addr decimal digits
port_text = refl

abbrev failures : List Event
failures = observed (reading 10) a_address failure ∷ observed (reading 20) a_address failure ∷ []

new_fresh : HasFailed 2 50 a_address 0 (new two 0)
unfolding new Health.new lookup from_addr decimal digits
new_fresh = (default_status, refl, refl, refl, refl)

abbrev weighing_c : Endpoint
weighing_c = record { address = dns (bytes "c") 80; weight = 5 }

distinct : IsDistinct (weighing_c ∷ a ∷ [])
unfolding from_addr decimal digits
distinct = (refl, (refl, tt))

failing-ejects_example :
    let before = failing (reading 10 ∷ []) a_address (new two 0) in
    let after = record_outcome (reading 20) a_address failure before in
    (before.state ≡ (new two 0).state)
    × IsEjected 2 50 a_address 70 after.health
    × All (λ e. from_endpoint e ≢ from_addr a_address) after.state.endpoints
failing-ejects_example =
    failing-ejects 2 50 a_address (reading 10 ∷ []) (reading 20) (new two 0) (omega arith)
      (omega arith) (omega arith) (omega arith) new_fresh

-- An endpoint that has failed once stays, and another one takes the place of the second.
abbrev failed_once : HealthState
failed_once = record {
  endpoints = a ∷ b ∷ [];
  statuses =
      (from_endpoint a, with_errors 1 default_status) ∷ (from_endpoint b, default_status) ∷ [];
}

lookup-update_endpoints_example :
    let key = from_endpoint a in
    let replaced = weighing_c ∷ a ∷ [] in
    lookup key (Health.update_endpoints replaced failed_once).statuses ≡ (
      if has_key key replaced
      then some (unwrap_or_default (lookup key failed_once.statuses))
      else none)
lookup-update_endpoints_example =
    lookup-update_endpoints (from_endpoint a) (weighing_c ∷ a ∷ []) failed_once distinct

abbrev take_permit : ℕ → Option ℕ
take_permit zero = none
take_permit (suc n) = some n

abbrev counting : Semaphore
counting = record { State = ℕ; new = λ n. n; try_acquire = take_permit; release = λ n. n + 1 }

taken_lem : (p left : ℕ) → take_permit p ≡ some left → p ≡ left + 1
taken_lem zero left e = cc
taken_lem (suc n) left e = omega (arith, some-injective n left e)

counting-IsSemaphore : IsSemaphore counting
counting-IsSemaphore = record {
  available = λ n. n;
  new_has = λ n. refl;
  taken = taken_lem;
  released = λ p. refl;
}

abbrev limits : Limits
limits = record { max = 2; queue_capacity = 1; queue_timeout = 100 }

-- Two calls, of which the second has a permit that is in use.
abbrev in_use : World counting limits
in_use = world counting limits 1 0 1 (active ∷ calling ∷ [])

in_use-Reachable : Reachable counting limits in_use
unfolding attempted
in_use-Reachable =
    next
      (next
        (next (next initially (called [] 2 0 0 (omega arith)))
          (called (calling ∷ []) 2 0 0 (omega arith)))
        (attempts [] (calling ∷ []) 2 0 0))
      (start_pool_use [] (calling ∷ []) 1 0 0)

pool_is_bounded_example :
    (in_use.active_conns ≡ count is_active in_use.tasks)
    × (in_use.active_conns ≤ 2)
    × (count has_place in_use.tasks ≤ 1)
    × (in_use.queued ≡ count is_queued in_use.tasks)
pool_is_bounded_example =
    pool_is_bounded counting counting-IsSemaphore limits in_use in_use-Reachable
