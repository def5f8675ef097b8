-- ===== src/Retry/Attempts.antt =====
-- How often a request is tried again.
use pavis.Prelude.{ℕ, suc, List, [], ◌∷◌, if◌then◌else◌}
use pavis.Prelude.Text.{Text}
use pavis.Retry.{RetryReason, RetryContext, can_retry, next_attempt}

-- The context after the failures of a request, each with its time: it moves on where it may.
unfoldable pub after_failures : List (ℕ × RetryReason) → RetryContext → RetryContext
after_failures [] c = c
after_failures ((now, reason) ∷ failures) c =
    if can_retry now c then after_failures failures (next_attempt reason c) else c

-- How often the request is sent again after these failures.
unfoldable pub retries : List (ℕ × RetryReason) → RetryContext → ℕ
retries [] c = 0
retries ((now, reason) ∷ failures) c =
    let rest = retries failures (next_attempt reason c) in if can_retry now c then suc rest else 0
