-- ===== src/Prelude/Suffix.antt =====
-- A text before and after its suffix.
use Prim.Native.Nat.{ℕ, zero, suc, ◌+◌, ◌-◌, ◌≤◌}
use mathlib.Core.Bool.{true, false}
use mathlib.Core.List.{[], ◌∷◌, ◌++◌}
use mathlib.Core.Path.{◌≡◌, refl, ◌∙◌, ap}
use native.Mathlib.Omega.{arith}
use pavis.Prelude.Tests.{leb}
use pavis.Prelude.Lists.{length, take, drop, length-append}
use pavis.Prelude.Text.{Text, text_eq, ends_with}

pub drop_past : (s t : Text) (k : ℕ) → drop (length s + k) (s ++ t) ≡ drop k t
drop_past [] t k = let same : 0 + k ≡ k = omega arith in ap (λ n. drop n t) same
drop_past (c ∷ s) t k =
    let next : length (c ∷ s) + k ≡ suc (length s + k) = omega arith in
    ap (λ n. drop n (c ∷ (s ++ t))) next ∙ drop_past s t k

pub take-append : (s t : Text) → take (length s) (s ++ t) ≡ s
take-append [] t = refl
take-append (c ∷ s) t = ap (λ r. c ∷ r) (take-append s t)

pub ends_with-append :
    (s t u : Text) (k : ℕ) → length t ≡ k + length u → ends_with (s ++ t) u ≡ text_eq (drop k t) u
ends_with-append s t u k e =
    let whole = length-append s t in
    let place : length (s ++ t) - length u ≡ length s + k = omega (arith, whole, e) in
    let long : leb (length u) (length (s ++ t)) ≡ true = ground (arith, whole, e) in
    rw (long, place, drop_past s t k) refl

pub drop-append :
    (k : ℕ) (s t : Text)
    → k ≤ length s
    → (drop k (s ++ t) ≡ drop k s ++ t) × (length (drop k s) + k ≡ length s)
drop-append zero s t h = (refl, omega arith)
drop-append (suc k) [] t h = absurd (omega (arith, h))
drop-append (suc k) (c ∷ s) t h =
    let (same, size) = drop-append k s t (omega (arith, h)) in (same, omega (arith, size))

-- Texts that differ at their ends are different.
pub tail_differs :
    (a c b d : Text) → length a ≡ length c → text_eq b d ≡ false → text_eq (a ++ b) (c ++ d) ≡ false
tail_differs [] [] b d l h = h
tail_differs [] (y ∷ c) b d l h = absurd (omega (arith, l))
tail_differs (x ∷ a) [] b d l h = absurd (omega (arith, l))
tail_differs (x ∷ a) (y ∷ c) b d l h =
    let rest = tail_differs a c b d (omega (arith, l)) h in ground (arith, rest)
