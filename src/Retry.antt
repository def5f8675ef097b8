-- ===== src/Retry.antt =====
-- crates/pavis-core/src/runtime/retry.rs and crates/pavis/src/retry.rs: the retry policy, the context
-- of a request that is retried, and the buffering of its body. Instants and durations are numbers of
-- milliseconds; what the metrics registry is told is the list of the recordings.
pub mod Budget
pub mod Delay
pub mod Attempts
pub mod Replay
mod Tests
use pavis.Prelude.{
  ℕ, ◌+◌, ◌-◌, ◌*◌, ◌%◌, ◌^◌, min, Bool, true, false, not, ◌&&◌, Option, none, some, List, [], ◌∷◌,
  ◌++◌, length, any, ltb, leb, ◌==◌, if◌then◌else◌, ◌⊎◌, inl, inr,
}
use pavis.Prelude.Text.{Text}
use pavis.Http.{HttpMethod, get, post, put, delete, patch, head, options, trace, connect}

abbrev pub u64_max : ℕ
u64_max = 2 ^ 64 - 1

abbrev pub u16_range : ℕ
u16_range = 2 ^ 16

pub data BackoffStrategy : Type 0 where
  fixed linear : (base_ms : ℕ) → BackoffStrategy
  exponential : (base_ms : ℕ) → (max_ms : ℕ) → BackoffStrategy

pub data RetryReason : Type 0 where
  status_code connect_timeout read_timeout per_try_timeout pool_full connect_error : RetryReason

abbrev rank : RetryReason → ℕ
rank status_code = 0
rank connect_timeout = 1
rank read_timeout = 2
rank per_try_timeout = 3
rank pool_full = 4
rank connect_error = 5

abbrev pub reason_eq : RetryReason → RetryReason → Bool
reason_eq r s = rank r == rank s

pub data TryTimeout : Type 0 where
  inherit_try disabled_try : TryTimeout
  enabled_try : (ms : ℕ) → TryTimeout

pub record Enabled : Type 0 where
  pub max_attempts : ℕ
  pub per_try : TryTimeout
  pub retryable_reasons : List RetryReason
  pub retryable_status_codes : Option (List ℕ)
  pub backoff : BackoffStrategy
  pub retry_non_idempotent : Bool
  pub fail_on_non_replayable_retry : Bool
  pub max_request_body_buffer_bytes : ℕ

pub data RetryPolicy : Type 0 where
  disabled : RetryPolicy
  enabled : Enabled → RetryPolicy

pub data MethodIdempotency : Type 0 where
  idempotent non_idempotent : MethodIdempotency

from_method : HttpMethod → MethodIdempotency
from_method get = idempotent
from_method head = idempotent
from_method options = idempotent
from_method trace = idempotent
from_method _ = non_idempotent

pub data BodyReplayability : Type 0 where
  buffered streaming empty : BodyReplayability

-- The calls of the metrics registry.
pub data Recording : Type 0 where
  retry : (upstream : Text) → RetryReason → (attempt : ℕ) → Recording
  retry_outcome : (upstream : Text) → (success : Bool) → Recording
  retry_body_buffered : (upstream : Text) → (bytes : ℕ) → Recording

pub record RetryContext : Type 0 where
  pub global_deadline : ℕ
  pub attempt : ℕ
  pub max_attempts : ℕ
  pub policy : RetryPolicy
  pub metrics : Option (List Recording)
  pub upstream_name : Text

pub attempts_of : RetryPolicy → ℕ
attempts_of (enabled e) = e.max_attempts
attempts_of disabled = 1

pub new :
    (now : ℕ)
    → RetryPolicy
    → (request_timeout_ms : ℕ) → Option (List Recording)
    → Text
    → RetryContext
unfolding attempts_of
new now policy request_timeout_ms metrics upstream_name = record {
  global_deadline = now + request_timeout_ms;
  attempt = 1;
  max_attempts = attempts_of policy;
  policy = policy;
  metrics = metrics;
  upstream_name = upstream_name;
}

remaining_budget : ℕ → RetryContext → ℕ
remaining_budget now c = c.global_deadline - now

is_deadline_exceeded : ℕ → RetryContext → Bool
is_deadline_exceeded now c = leb c.global_deadline now

pub can_retry : ℕ → RetryContext → Bool
unfolding is_deadline_exceeded
can_retry now c = ltb c.attempt c.max_attempts && not (is_deadline_exceeded now c)

record_in : Option (List Recording) → Recording → Option (List Recording)
record_in none r = none
record_in (some rs) r = some (rs ++ r ∷ [])

-- The addition is one of 16 bits.
pub next_attempt : RetryReason → RetryContext → RetryContext
unfolding record_in
next_attempt reason c =
    let attempt = (c.attempt + 1) % u16_range in
    record c {
      attempt = attempt;
      metrics = record_in c.metrics (retry c.upstream_name reason attempt);
    }

pub record_outcome : Bool → RetryContext → RetryContext
unfolding record_in
record_outcome success c = record c {
  metrics = record_in c.metrics (retry_outcome c.upstream_name success);
}

pub is_retryable : RetryReason → RetryPolicy → Bool
is_retryable reason disabled = false
is_retryable reason (enabled e) = any (reason_eq reason) e.retryable_reasons

contains_code : ℕ → Option (List ℕ) → Bool
contains_code status none = false
contains_code status (some codes) = any (λ c. status == c) codes

pub is_status_code_retryable : ℕ → RetryPolicy → Bool
unfolding contains_code
is_status_code_retryable status disabled = false
is_status_code_retryable status (enabled e) =
    if not (any (reason_eq status_code) e.retryable_reasons)
    then false
    else contains_code status e.retryable_status_codes

pub is_method_allowed : HttpMethod → RetryPolicy → Bool
unfolding from_method
is_method_allowed method disabled = false
is_method_allowed method (enabled e) = elim (from_method method) [
  | idempotent ↦ true
  | non_idempotent ↦ e.retry_non_idempotent
]

abbrev pub saturating_mul : ℕ → ℕ → ℕ
saturating_mul a b = min (a * b) u64_max

abbrev pub saturating_pow2 : ℕ → ℕ
saturating_pow2 exponent = min (2 ^ exponent) u64_max

delay_ms : ℕ → BackoffStrategy → ℕ
delay_ms attempt (fixed base_ms) = base_ms
delay_ms attempt (linear base_ms) = saturating_mul base_ms (attempt - 1)
delay_ms attempt (exponential base_ms max_ms) =
    if ltb attempt 2 then 0 else min (saturating_mul base_ms (saturating_pow2 (attempt - 2))) max_ms

calculate_backoff : RetryPolicy → ℕ → ℕ
unfolding delay_ms
calculate_backoff disabled attempt = 0
calculate_backoff (enabled e) attempt = delay_ms attempt e.backoff

-- The time that `apply_backoff` sleeps.
pub apply_backoff : ℕ → RetryContext → ℕ
unfolding calculate_backoff remaining_budget
apply_backoff now c =
    if leb c.attempt 1
    then 0
    else if remaining_budget now c == 0
    then 0
    else min (calculate_backoff c.policy c.attempt) (remaining_budget now c)

-- The guard that a body keeps until it is dropped is one of Retry/Budget.
pub record BufferedBody : Type 0 where
  pub bytes : List ℕ
  pub replayability : BodyReplayability

-- A buffered body, and the metrics after its recording.
pub new_body :
    List ℕ
    → (max_buffer_size : ℕ) → Option (List Recording)
    → Text
    → (force_streaming : Bool) → BufferedBody × Option (List Recording)
unfolding record_in
new_body bytes max_buffer_size metrics upstream_name force_streaming =
    if force_streaming
    then (record { bytes = bytes; replayability = streaming }, metrics)
    else if length bytes == 0
    then (record { bytes = bytes; replayability = empty }, metrics)
    else if leb (length bytes) max_buffer_size
    then (
      record { bytes = bytes; replayability = buffered },
      record_in metrics (retry_body_buffered upstream_name (length bytes)),
    )
    else (record { bytes = bytes; replayability = streaming }, metrics)

pub can_replay : BufferedBody → Bool
can_replay body = elim body.replayability [ empty ↦ true | buffered ↦ true | streaming ↦ false ]

pub data RetryBodyError : Type 0 where
  not_replayable : RetryBodyError

pub handle_non_replayable : Bool → BufferedBody → ◌⊎◌ {0, 0} RetryBodyError Unit
unfolding can_replay
handle_non_replayable fail_on_non_replayable body =
    if not (can_replay body) && fail_on_non_replayable then inl not_replayable else inr tt
