-- ===== src/Retry/Tests.antt =====
-- Retries at concrete policies and bodies, and the theorems at them.
use pavis.Prelude.{
  ℕ, ◌-◌, ◌≤◌, ◌<◌, min, true, false, ◌≡◌, ◌⊎◌, inl, ◌↔◌, refl, none, some, List, [], ◌∷◌, arith,
}
use pavis.Prelude.Text.{Text}
use pavis.Retry.{
  u64_max, exponential, RetryReason, status_code, connect_timeout, inherit_try, Enabled, enabled,
  RetryContext, new, retry, next_attempt, can_retry, apply_backoff, new_body, can_replay,
  not_replayable, handle_non_replayable,
}
use pavis.Retry.Delay.{documented, apply_backoff-documented}
use pavis.Retry.Attempts.{after_failures}
use pavis.Retry.Replay.{body_replay}
use pavis.Retry.Budget.{
  World, ready, loaded, returned, created, loads, exchanges, Reachable, initially, next, load,
  compare_exchange, total, retry_body_global_budget_bytes, budget_is_kept,
}

abbrev policy : Enabled
policy = record {
  max_attempts = 3;
  per_try = inherit_try;
  retryable_reasons = status_code ∷ [];
  retryable_status_codes = some (502 ∷ 503 ∷ []);
  backoff = exponential 100 5000;
  retry_non_idempotent = false;
  fail_on_non_replayable_retry = false;
  max_request_body_buffer_bytes = 4;
}

abbrev upstream : Text
upstream = 97 ∷ []

abbrev third : RetryContext
third = record {
  global_deadline = 1000;
  attempt = 3;
  max_attempts = 3;
  policy = enabled policy;
  metrics = some [];
  upstream_name = upstream;
}

abbrev failures : List (ℕ × RetryReason)
failures = (10, status_code) ∷ (20, connect_timeout) ∷ (30, status_code) ∷ []

third_delay : apply_backoff 500 third ≡ 200
unfolding apply_backoff
third_delay = refl

recorded :
    (after_failures failures (new 0 (enabled policy) 1000 (some []) upstream)).metrics
    ≡ some (retry upstream status_code 2 ∷ retry upstream connect_timeout 3 ∷ [])
unfolding after_failures new next_attempt can_retry
recorded = refl

apply_backoff-documented_example :
    apply_backoff 500 third ≡ min (min (documented 3 (exponential 100 5000)) u64_max) (1000 - 500)
apply_backoff-documented_example =
    apply_backoff-documented 500 third policy refl (omega arith) (omega arith)

body_replay_example :
    (can_replay (new_body (1 ∷ 2 ∷ []) 4 none upstream false).0 ≡ true)
    × ((new_body (1 ∷ 2 ∷ []) 4 none upstream false).0.bytes ≡ 1 ∷ 2 ∷ [])
    × ((handle_non_replayable true (new_body (1 ∷ 2 ∷ []) 4 none upstream false).0
          ≡ inl not_replayable)
        ↔ (((false ≡ true) ⊎ (4 < 2)) × (true ≡ true)))
body_replay_example = body_replay (1 ∷ 2 ∷ []) 4 none upstream false true

-- Two bodies of 20 MB at once: both guards read the counter at 0, the first one gets the memory, and
-- the exchange of the second one fails, so that it reads again and finds no room.
abbrev size : ℕ
size = 20000000

abbrev contended : World
contended = record { used = size; guards = returned size true ∷ returned 0 false ∷ [] }

contended-Reachable : Reachable contended
unfolding load compare_exchange
contended-Reachable =
    next
      (next
        (next
          (next (next (next initially (created 0 [])) (created 0 (ready 0 ∷ [])))
            (loads [] (ready 0 ∷ []) 0 0 size))
          (loads (loaded 0 size 0 ∷ []) [] 0 0 size))
        (exchanges [] (loaded 0 size 0 ∷ []) 0 0 size 0))
      (exchanges (returned size true ∷ []) [] size 0 size 0)

budget_is_kept_example : (size ≡ total contended.guards) × (size ≤ retry_body_global_budget_bytes)
budget_is_kept_example = budget_is_kept contended-Reachable
