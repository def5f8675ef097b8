-- ===== src/Retry/Budget.antt =====
-- crates/pavis/src/retry.rs: the memory that the bodies of all requests may take together. Each
-- guard belongs to one request; the steps of the guards interleave freely.
use pavis.Prelude.{
  ℕ, ◌+◌, ◌-◌, ◌*◌, ◌%◌, ◌^◌, ◌≤◌, min, Bool, true, false, List, [], ◌∷◌, ◌++◌, ltb, ◌==◌,
  if◌then◌else◌, ◌≡◌, refl, All, arith,
}
use pavis.Retry.{u64_max}

abbrev pub retry_body_global_budget_bytes : ℕ
retry_body_global_budget_bytes = 32 * 1024 * 1024

-- A guard at rest with its bytes, or within `try_add` with the value it has read; and one whose
-- `try_add` has returned.
pub data BudgetGuard : Type 0 where
  ready : (bytes : ℕ) → BudgetGuard
  loaded : (bytes : ℕ) → (extra : ℕ) → (used : ℕ) → BudgetGuard
  returned : (bytes : ℕ) → (result : Bool) → BudgetGuard

abbrev pub held : BudgetGuard → ℕ
held (ready bytes) = bytes
held (loaded bytes extra used) = bytes
held (returned bytes result) = bytes

-- `used.saturating_add(extra)`.
abbrev saturating_add : ℕ → ℕ → ℕ
saturating_add a b = min (a + b) u64_max

-- `try_add` up to and with its load: nothing to add, over the budget, or about to exchange.
unfoldable pub load : (extra : ℕ) → (used : ℕ) → (bytes : ℕ) → BudgetGuard
load extra used bytes =
    if extra == 0
    then returned bytes true
    else if ltb retry_body_global_budget_bytes (saturating_add used extra)
    then returned bytes false
    else loaded bytes extra used

-- The exchange, from the counter to the counter and the guard; where it fails the loop starts again.
unfoldable pub compare_exchange : ℕ → (bytes : ℕ) → (extra : ℕ) → (seen : ℕ) → ℕ × BudgetGuard
unfolding load
compare_exchange used bytes extra seen =
    if used == seen
    then (saturating_add seen extra, returned (saturating_add bytes extra) true)
    else (used, load extra used bytes)

-- The drop: `fetch_sub` wraps around at 64 bits.
unfoldable pub release : ℕ → BudgetGuard → ℕ
release used g = if ltb 0 (held g) then (used + 2 ^ 64 - held g) % 2 ^ 64 else used

pub record World : Type 0 where
  pub used : ℕ
  pub guards : List BudgetGuard

abbrev world : ℕ → List BudgetGuard → World
world u gs = record { used = u; guards = gs }

-- The guard that acts stands between `xs` and `ys`.
pub data Step : World → World → Type 0 where
  created : (u : ℕ) (gs : List BudgetGuard) → Step (world u gs) (world u (ready 0 ∷ gs))
  loads :
      (xs ys : List BudgetGuard) (u bytes extra : ℕ)
      → Step (world u (xs ++ ready bytes ∷ ys)) (world u (xs ++ load extra u bytes ∷ ys))
  exchanges :
      (xs ys : List BudgetGuard) (u bytes extra seen : ℕ)
      → Step (world u (xs ++ loaded bytes extra seen ∷ ys)) (
          world
            (compare_exchange u bytes extra seen).0
            (xs ++ (compare_exchange u bytes extra seen).1 ∷ ys))
  returns :
      (xs ys : List BudgetGuard) (u bytes : ℕ) (result : Bool)
      → Step (world u (xs ++ returned bytes result ∷ ys)) (world u (xs ++ ready bytes ∷ ys))
  dropped :
      (xs ys : List BudgetGuard) (u bytes : ℕ)
      → Step (world u (xs ++ ready bytes ∷ ys)) (world (release u (ready bytes)) (xs ++ ys))

pub data Reachable : World → Type 0 where
  initially : Reachable (world 0 [])
  next : {v w : World} → Reachable v → Step v w → Reachable w

abbrev pub total : List BudgetGuard → ℕ
total [] = 0
total (g ∷ gs) = held g + total gs

total-append : (xs ys : List BudgetGuard) → total (xs ++ ys) ≡ total xs + total ys
total-append [] ys = omega arith
total-append (x ∷ xs) ys = omega (arith, total-append xs ys)

-- A value that was read leaves room for what is to be added.
abbrev HasRoom : BudgetGuard → Type 0
HasRoom (loaded bytes extra used) = used + extra ≤ retry_body_global_budget_bytes
HasRoom _ = Unit

record IsValid (w : World) : Type 0 where
  sum : w.used ≡ total w.guards
  bounded : w.used ≤ retry_body_global_budget_bytes
  room : All HasRoom w.guards

load_lem :
    (extra used bytes : ℕ)
    → (held (load extra used bytes) ≡ bytes) × HasRoom (load extra used bytes)
unfolding load
load_lem extra used bytes = ground arith

compare_exchange_lem :
    (used bytes extra seen : ℕ)
    → bytes ≤ used
    → used ≤ retry_body_global_budget_bytes
    → seen + extra ≤ retry_body_global_budget_bytes
    → ((compare_exchange used bytes extra seen).0 + bytes
        ≡ used + held (compare_exchange used bytes extra seen).1)
      × ((compare_exchange used bytes extra seen).0 ≤ retry_body_global_budget_bytes)
      × HasRoom (compare_exchange used bytes extra seen).1
unfolding compare_exchange
compare_exchange_lem used bytes extra seen le h room = ground arith

release_lem :
    (used bytes : ℕ)
    → bytes ≤ used
    → used ≤ retry_body_global_budget_bytes
    → release used (ready bytes) ≡ used - bytes
unfolding release
release_lem used bytes le h = ground arith

total-between :
    (xs ys : List BudgetGuard) (g : BudgetGuard)
    → total (xs ++ g ∷ ys) ≡ held g + (total xs + total ys)
total-between xs ys g = omega (arith, total-append xs (g ∷ ys))

All-at : (xs ys : List BudgetGuard) (g : BudgetGuard) → All HasRoom (xs ++ g ∷ ys) → HasRoom g
All-at [] ys g (r, rs) = r
All-at (x ∷ xs) ys g (r, rs) = All-at xs ys g rs

All-put :
    (xs ys : List BudgetGuard) (g h : BudgetGuard)
    → HasRoom h
    → All HasRoom (xs ++ g ∷ ys)
    → All HasRoom (xs ++ h ∷ ys)
All-put [] ys g h k (r, rs) = (k, rs)
All-put (x ∷ xs) ys g h k (r, rs) = (r, All-put xs ys g h k rs)

All-without :
    (xs ys : List BudgetGuard) (g : BudgetGuard)
    → All HasRoom (xs ++ g ∷ ys)
    → All HasRoom (xs ++ ys)
All-without [] ys g (r, rs) = rs
All-without (x ∷ xs) ys g (r, rs) = (r, All-without xs ys g rs)

-- One guard is replaced by another, and the counter by as much.
replaced :
    (xs ys : List BudgetGuard) (u u' : ℕ) (g h : BudgetGuard)
    → IsValid (world u (xs ++ g ∷ ys))
    → u' + held g ≡ u + held h
    → u' ≤ retry_body_global_budget_bytes
    → HasRoom h
    → IsValid (world u' (xs ++ h ∷ ys))
replaced xs ys u u' g h i balance bound room = record {
  sum = omega (arith, i.sum, balance, total-between xs ys g, total-between xs ys h);
  bounded = bound;
  room = All-put xs ys g h room i.room;
}

Step-IsValid : {v w : World} → Step v w → IsValid v → IsValid w
Step-IsValid (created u gs) i = record {
  sum = omega (arith, i.sum);
  bounded = i.bounded;
  room = (tt, i.room);
}
Step-IsValid (loads xs ys u bytes extra) i =
    let (same, room) = load_lem extra u bytes in
    replaced xs ys u u (ready bytes) (load extra u bytes) i (omega (arith, same)) i.bounded room
Step-IsValid (exchanges xs ys u bytes extra seen) i =
    let held_lem = total-between xs ys (loaded bytes extra seen) in
    let (balance, bound, room) =
      compare_exchange_lem u bytes extra seen (omega (arith, i.sum, held_lem)) i.bounded
        (All-at xs ys (loaded bytes extra seen) i.room) in
    let (u', h) = compare_exchange u bytes extra seen in
    replaced xs ys u u' (loaded bytes extra seen) h i balance bound room
Step-IsValid (returns xs ys u bytes result) i =
    replaced xs ys u u (returned bytes result) (ready bytes) i refl i.bounded tt
Step-IsValid (dropped xs ys u bytes) i =
    let held_lem = total-between xs ys (ready bytes) in
    let less = release_lem u bytes (omega (arith, i.sum, held_lem)) i.bounded in
    record {
      sum = omega (arith, i.sum, held_lem, less, total-append xs ys);
      bounded = omega (arith, i.bounded, less);
      room = All-without xs ys (ready bytes) i.room;
    }

Reachable-IsValid : {w : World} → Reachable w → IsValid w
Reachable-IsValid initially = record { sum = refl; bounded = omega arith; room = tt }
Reachable-IsValid (next r s) = Step-IsValid s (Reachable-IsValid r)

-- However the loads, exchanges and drops of any number of guards interleave, the counter is exactly
-- what the guards hold together, and at most the budget of 32 MiB.
pub budget_is_kept :
    {w : World}
    → Reachable w
    → (w.used ≡ total w.guards) × (w.used ≤ retry_body_global_budget_bytes)
budget_is_kept r = let i = Reachable-IsValid r in (i.sum, i.bounded)
