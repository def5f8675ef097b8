-- ===== src/Retry/Delay.antt =====
-- The delay before an attempt, beside the one that the policy documents.
use pavis.Prelude.{ℕ, zero, suc, ◌-◌, ◌*◌, ◌^◌, ◌≤◌, min, ◌≡◌, ◌⊎◌, inl, inr, refl, arith}
use pavis.Retry.{
  u64_max, BackoffStrategy, fixed, linear, exponential, enabled, Enabled, saturating_mul,
  saturating_pow2, RetryContext, delay_ms, apply_backoff,
}

-- The formulas of the documentation, without bounds on the numbers.
abbrev pub documented : ℕ → BackoffStrategy → ℕ
documented attempt (fixed base_ms) = base_ms
documented attempt (linear base_ms) = base_ms * (attempt - 1)
documented attempt (exponential base_ms max_ms) = min (base_ms * 2 ^ (attempt - 2)) max_ms

-- The numbers of the policy are numbers of 64 bits.
abbrev pub Fits : BackoffStrategy → Type 0
Fits (fixed base_ms) = base_ms ≤ u64_max
Fits (linear base_ms) = base_ms ≤ u64_max
Fits (exponential base_ms max_ms) = max_ms ≤ u64_max

le-cases : (a b : ℕ) → (a ≤ b) ⊎ (b ≤ a)
le-cases a b = ground arith

module _ (base k max_ms : ℕ) (h : max_ms ≤ u64_max) where
  exponential_small :
      2 ^ k ≤ u64_max
      → min (saturating_mul base (saturating_pow2 k)) max_ms ≡ min (base * 2 ^ k) max_ms
  exponential_small small =
      let power : saturating_pow2 k ≡ 2 ^ k = omega arith in rw power (omega arith)

  exponential_large :
      u64_max ≤ 2 ^ k
      → min (saturating_mul (suc base) (saturating_pow2 k)) max_ms ≡ min (suc base * 2 ^ k) max_ms
  exponential_large large =
      let power : saturating_pow2 k ≡ u64_max = omega arith in rw power (omega arith)

-- Saturating each step gives the same as saturating once, below a cap of 64 bits.
exponential_lem :
    (base k max_ms : ℕ)
    → max_ms ≤ u64_max
    → min (saturating_mul base (saturating_pow2 k)) max_ms ≡ min (base * 2 ^ k) max_ms
exponential_lem zero k max_ms h = ground arith
exponential_lem (suc base) k max_ms h = elim (le-cases (2 ^ k) u64_max) [
  | inl small ↦ exponential_small (suc base) k max_ms h small
  | inr large ↦ exponential_large base k max_ms h large
]

delay_ms_lem :
    (attempt : ℕ) (s : BackoffStrategy)
    → 2 ≤ attempt
    → Fits s
    → delay_ms attempt s ≡ min (documented attempt s) u64_max
unfolding delay_ms
delay_ms_lem attempt (fixed base_ms) le fits = omega arith
delay_ms_lem attempt (linear base_ms) le fits = refl
delay_ms_lem attempt (exponential base_ms max_ms) le fits =
    ground (arith, exponential_lem base_ms (attempt - 2) max_ms fits)

-- Before a further attempt, under an enabled policy with numbers of 64 bits, the proxy sleeps for
-- the documented delay (of at most 64 bits), or for what is left of the time of the whole request,
-- where that is shorter.
pub apply_backoff-documented :
    (now : ℕ) (c : RetryContext) (e : Enabled)
    → c.policy ≡ enabled e
    → 2 ≤ c.attempt
    → Fits e.backoff
    → apply_backoff now c
      ≡ min (min (documented c.attempt e.backoff) u64_max) (c.global_deadline - now)
unfolding apply_backoff
apply_backoff-documented now c e p le fits =
    ground (arith, p, delay_ms_lem c.attempt e.backoff le fits)
