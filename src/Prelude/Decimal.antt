-- ===== src/Prelude/Decimal.antt =====
-- Numbers in decimal digits, as `format!` prints them and `parse` reads them.
use Prim.Native.Nat.{ℕ, zero, suc, ◌+◌, ◌-◌, ◌*◌, ◌/◌, ◌%◌, ◌^◌, ◌≤◌, ◌<◌}
use mathlib.Core.Bool.{Bool, true, false, ◌&&◌}
use mathlib.Core.List.{[], ◌∷◌}
use mathlib.Core.Logic.{inl, inr}
use mathlib.Core.Path.{◌≡◌, refl, ◌∙◌, ap}
use native.Mathlib.Omega.{arith}
use pavis.Prelude.Tests.{leb, ltb, Bool-cases}
use pavis.Prelude.Lists.{all, length}
use pavis.Prelude.Text.{Text}

-- The digits of `n` in front of `behind`; `n` steps are enough.
unfoldable pub digits : (fuel n : ℕ) → (behind : Text) → Text
digits zero n behind = (48 + n % 10) ∷ behind
digits (suc fuel) n behind =
    let here = (48 + n % 10) ∷ behind in
    elim (ltb n 10) [ true ↦ here | false ↦ digits fuel (n / 10) here ]

-- `format!("{n}")`.
unfoldable pub decimal : ℕ → Text
decimal n = digits n n []

abbrev pub is_digit : ℕ → Bool
is_digit c = leb 48 c && leb c 57

abbrev pub value_from : (value : ℕ) → Text → ℕ
value_from value [] = value
value_from value (c ∷ s) = value_from (value * 10 + (c - 48)) s

last_digit :
    (fuel n : ℕ) (behind : Text)
    → ltb n 10 ≡ true
    → digits (suc fuel) n behind ≡ (48 + n % 10) ∷ behind
unfolding digits
last_digit fuel n behind e = rw (e, digits) refl

more_digits :
    (fuel n : ℕ) (behind : Text)
    → ltb n 10 ≡ false
    → digits (suc fuel) n behind ≡ digits fuel (n / 10) ((48 + n % 10) ∷ behind)
unfolding digits
more_digits fuel n behind e = rw (e, digits) refl

value_from-digits :
    (fuel n : ℕ) (behind : Text)
    → n ≤ fuel
    → value_from 0 (digits fuel n behind) ≡ value_from n behind
unfolding digits
value_from-digits zero n behind h = ap (λ m. value_from m behind) (omega arith)
value_from-digits (suc fuel) n behind h = elim (Bool-cases (ltb n 10)) [
  | inl e ↦ rw (last_digit fuel n behind e) (ap (λ m. value_from m behind) (ground (arith, e)))
  | inr e ↦
      let small : n / 10 ≤ fuel = ground (arith, e, h) in
      let whole : n / 10 * 10 + (48 + n % 10 - 48) ≡ n = omega arith in
      rw (more_digits fuel n behind e) (
        value_from-digits fuel (n / 10) ((48 + n % 10) ∷ behind) small
        ∙ ap (λ m. value_from m behind) whole)
]

length-digits :
    (fuel n k : ℕ) (behind : Text)
    → n < 10 ^ suc k
    → n ≤ fuel
    → length (digits fuel n behind) ≤ suc k + length behind
unfolding digits
length-digits zero n k behind b h = omega arith
length-digits (suc fuel) n zero behind b h =
    let small : ltb n 10 ≡ true = ground (arith, b) in
    rw (last_digit fuel n behind small) (omega arith)
length-digits (suc fuel) n (suc j) behind b h = elim (Bool-cases (ltb n 10)) [
  | inl e ↦ rw (last_digit fuel n behind e) (omega arith)
  | inr e ↦
      let many : 10 ≤ n = ground (arith, e) in
      let fewer =
        length-digits fuel (n / 10) j ((48 + n % 10) ∷ behind) (omega (arith, b))
          (omega (arith, many, h)) in
      rw (more_digits fuel n behind e) (omega (arith, fewer))
]

all-digits :
    (fuel n : ℕ) (behind : Text)
    → all is_digit behind ≡ true
    → all is_digit (digits fuel n behind) ≡ true
unfolding digits
all-digits zero n behind h = ground (arith, h)
all-digits (suc fuel) n behind h =
    let here : all is_digit ((48 + n % 10) ∷ behind) ≡ true = ground (arith, h) in
    elim (Bool-cases (ltb n 10)) [
      | inl e ↦ rw (last_digit fuel n behind e) here
      | inr e ↦
          rw (more_digits fuel n behind e) (all-digits fuel (n / 10) ((48 + n % 10) ∷ behind) here)
    ]

-- The digits of a number are digits, read as this number, and as many as it has.
pub value_from-decimal : (n : ℕ) → value_from 0 (decimal n) ≡ n
unfolding decimal
value_from-decimal n = value_from-digits n n [] (omega arith)

pub all-decimal : (n : ℕ) → all is_digit (decimal n) ≡ true
unfolding decimal
all-decimal n = all-digits n n [] refl

pub length-decimal : (n k : ℕ) → n < 10 ^ suc k → length (decimal n) ≤ suc k
unfolding decimal
length-decimal n k b = omega (arith, length-digits n n k [] b (omega arith))
