-- ===== src/Upstream/Pool/Counts.antt =====
-- Sums over the tasks of a pool, and the bounds that they give its two counters.
use pavis.Prelude.{ℕ, ◌+◌, ◌^◌, ◌≤◌, ◌<◌, List, [], ◌∷◌, ◌++◌, ◌≡◌, refl, arith}
use pavis.Upstream.Pool.{
  Task, holding, overfull, waiting, cancelled, granted, gave_up, active, dropping, size,
  fetch_add_one, fetch_sub_one, size,
}

-- The tasks with a permit, those in the counter of the queue, those of them that have their place
-- in it, and those in the counter of connections.
abbrev pub has_permit : Task → ℕ
has_permit holding = 1
has_permit granted = 1
has_permit active = 1
has_permit dropping = 1
has_permit _ = 0

abbrev pub has_place : Task → ℕ
has_place waiting = 1
has_place cancelled = 1
has_place granted = 1
has_place (gave_up reason) = 1
has_place _ = 0

abbrev pub is_queued : Task → ℕ
is_queued overfull = 1
is_queued t = has_place t

abbrev pub is_active : Task → ℕ
is_active active = 1
is_active _ = 0

abbrev pub count : (Task → ℕ) → List Task → ℕ
count f [] = 0
count f (t ∷ ts) = f t + count f ts

pub between :
    (f : Task → ℕ) (xs ys : List Task) (t : Task)
    → count f (xs ++ t ∷ ys) ≡ f t + (count f xs + count f ys)
between f [] ys t = omega arith
between f (x ∷ xs) ys t = omega (arith, between f xs ys t)

pub count-le :
    (f g : Task → ℕ) (ts : List Task) → ((t : Task) → f t ≤ g t) → count f ts ≤ count g ts
count-le f g [] h = omega arith
count-le f g (t ∷ ts) h = omega (arith, h t, count-le f g ts h)

abbrev pub one : Task → ℕ
one t = 1

pub count-size : (ts : List Task) → count one ts ≡ size ts
count-size [] = refl
count-size (t ∷ ts) = omega (arith, count-size ts)

pub place-queued : (t : Task) → has_place t ≤ is_queued t
place-queued t = ground arith

pub queued-one : (t : Task) → is_queued t ≤ one t
queued-one t = ground arith

pub active-one : (t : Task) → is_active t ≤ one t
active-one t = ground arith

pub active-permit : (t : Task) → is_active t ≤ has_permit t
active-permit t = ground arith

-- Neither counter reaches 2 ^ 32, and a task that counts itself off has been counted.
pub add_fits :
    (f : Task → ℕ) (xs ys : List Task) (t : Task) (n : ℕ)
    → ((t' : Task) → f t' ≤ one t')
    → f t ≡ 0
    → n ≡ count f (xs ++ t ∷ ys)
    → count one (xs ++ t ∷ ys) < 2 ^ 32
    → fetch_add_one n ≡ n + 1
add_fits f xs ys t n h z e b = omega (
  arith,
  z,
  e,
  b,
  between f xs ys t,
  between one xs ys t,
  count-le f one xs h,
  count-le f one ys h,
)

pub sub_fits :
    (f : Task → ℕ) (xs ys : List Task) (t : Task) (n : ℕ)
    → ((t' : Task) → f t' ≤ one t')
    → f t ≡ 1
    → n ≡ count f (xs ++ t ∷ ys)
    → count one (xs ++ t ∷ ys) < 2 ^ 32
    → fetch_sub_one n + 1 ≡ n
sub_fits f xs ys t n h o e b = omega (
  arith,
  o,
  e,
  b,
  between f xs ys t,
  between one xs ys t,
  count-le f one xs h,
  count-le f one ys h,
)
