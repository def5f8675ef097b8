-- ===== src/Agent/Backoff.antt =====
-- The delay between two attempts.
use native.Mathlib.Nat.{pow-suc}
use pavis.Prelude.{ℕ, zero, suc, ◌*◌, ◌/◌, ◌^◌, ◌≤◌, min, ◌≡◌, refl, arith}
use pavis.Agent.{backoff_base, backoff_cap, capped_delay, jittered, backoff_delay}

-- The base, doubled with each attempt, up to the cap.
abbrev pub nominal_delay : ℕ → ℕ
nominal_delay attempt = min (backoff_base * 2 ^ attempt) backoff_cap

one-le-pow : (n : ℕ) → 1 ≤ 2 ^ n
one-le-pow zero = omega arith
one-le-pow (suc n) = omega (arith, pow-suc 2 n, one-le-pow n)

doubled_five_times : (n : ℕ) → 32 ≤ 2 ^ suc (suc (suc (suc (suc n))))
doubled_five_times n = omega (
  arith,
  pow-suc 2 (suc (suc (suc (suc n)))),
  pow-suc 2 (suc (suc (suc n))),
  pow-suc 2 (suc (suc n)),
  pow-suc 2 (suc n),
  pow-suc 2 n,
  one-le-pow n,
)

-- From the fifth attempt on the cap is reached, so that the bound of ten doublings never shows.
capped_delay_lem : (attempt : ℕ) → capped_delay attempt ≡ nominal_delay attempt
unfolding capped_delay
capped_delay_lem zero = refl
capped_delay_lem (suc zero) = refl
capped_delay_lem (suc (suc zero)) = refl
capped_delay_lem (suc (suc (suc zero))) = refl
capped_delay_lem (suc (suc (suc (suc zero)))) = refl
capped_delay_lem (suc (suc (suc (suc (suc n))))) =
    let exponent : min (suc (suc (suc (suc (suc n))))) 10 ≡ suc (suc (suc (suc (suc (min n 5))))) =
      omega arith in
    rw exponent (ground (arith, doubled_five_times n, doubled_five_times (min n 5)))

jittered_bounds :
    (random c : ℕ)
    → (9 * c ≤ 10 * jittered random c (c * 10 / 100))
      × (10 * jittered random c (c * 10 / 100) ≤ 11 * c)
unfolding jittered
jittered_bounds random c = ground arith

-- The delay before a further attempt is the base of 250 ms, doubled with each failed attempt and
-- capped at 5 s, up to a tenth of it more or less.
pub backoff_delay_bounds :
    (random attempt : ℕ)
    → (9 * nominal_delay attempt ≤ 10 * backoff_delay random attempt)
      × (10 * backoff_delay random attempt ≤ 11 * nominal_delay attempt)
unfolding backoff_delay
backoff_delay_bounds random attempt =
    let same = capped_delay_lem attempt in
    let bounds = jittered_bounds random (capped_delay attempt) in omega arith
