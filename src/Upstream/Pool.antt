-- ===== src/Upstream/Pool.antt =====
-- crates/pavis/src/upstream/cluster/pool.rs: the permits of an upstream and the queue for them. Each
-- call of `acquire` is a task; the atomic steps of the tasks interleave freely, and a task that
-- waits can be cancelled. Metrics are left out. The semaphore (the `tokio` crate) is a parameter.
pub mod Counts
pub mod Counted
use pavis.Prelude.{
  ℕ, zero, suc, ◌+◌, ◌-◌, ◌%◌, ◌^◌, ◌<◌, Option, none, some, List, [], ◌∷◌, ◌++◌, leb, ◌==◌,
  if◌then◌else◌, ◌≡◌,
}

pub data PoolRejection : Type 0 where
  queue_full queue_timeout closed : PoolRejection

-- `tokio::sync::Semaphore`: what a permit that is asked for leaves, and what a returned one leaves.
pub record Semaphore : Type 1 where
  pub State : Type 0
  pub new : ℕ → State
  pub try_acquire : State → Option State
  pub release : State → State

-- Where a call of `acquire` stands, and the permit after it.
pub data Task : Type 0 where
  -- Before `try_acquire_owned`, and before the `fetch_add` of the queue.
  calling queueing : Task
  -- With a permit, before `start_pool_use`.
  holding : Task
  -- Counted in the queue: over its capacity, waiting, dropped while it waited, and at the call of
  -- `finish_queue_wait` with a permit and without one.
  overfull waiting cancelled granted : Task
  gave_up : PoolRejection → Task
  -- The permit is used; its drop has counted it off and will give it back.
  active dropping : Task
  returned rejected : Task

pub record Limits : Type 0 where
  pub max : ℕ
  pub queue_capacity : ℕ
  pub queue_timeout : ℕ

-- `fetch_add(1)` and `fetch_sub(1)` of an `AtomicU32`.
abbrev pub fetch_add_one : ℕ → ℕ
fetch_add_one n = (n + 1) % 2 ^ 32

abbrev pub fetch_sub_one : ℕ → ℕ
fetch_sub_one n = (n + 2 ^ 32 - 1) % 2 ^ 32

abbrev pub size : List Task → ℕ
size [] = 0
size (t ∷ ts) = 1 + size ts

module _ (semaphore : Semaphore) (limits : Limits) where
  abbrev pub refused_or_queueing : Task
  refused_or_queueing =
      if limits.queue_capacity == 0
      then rejected
      else if limits.queue_timeout == 0
      then rejected
      else queueing

  -- The permits and the task after the first attempt.
  unfoldable pub attempted : semaphore.State → semaphore.State × Task
  attempted permits = elim (semaphore.try_acquire permits) [
    | some left ↦ (left, holding)
    | none ↦ (permits, refused_or_queueing)
  ]

  unfoldable pub enqueued : (queued_before : ℕ) → Task
  enqueued queued_before = if leb limits.queue_capacity queued_before then overfull else waiting

  pub record World : Type 0 where
    pub permits : semaphore.State
    pub queued : ℕ
    pub active_conns : ℕ
    pub tasks : List Task

  abbrev pub world : semaphore.State → ℕ → ℕ → List Task → World
  world p q a ts = record { permits = p; queued = q; active_conns = a; tasks = ts }

  -- The task that acts stands between `xs` and `ys`; there are less than 2 ^ 32 tasks.
  pub data Step : World → World → Type 0 where
    called :
        (ts : List Task) (p : semaphore.State) (q a : ℕ)
        → size ts + 1 < 2 ^ 32
        → Step (world p q a ts) (world p q a (calling ∷ ts))
    attempts :
        (xs ys : List Task) (p : semaphore.State) (q a : ℕ)
        → Step
            (world p q a (xs ++ calling ∷ ys))
            (world (attempted p).0 q a (xs ++ (attempted p).1 ∷ ys))
    enqueues :
        (xs ys : List Task) (p : semaphore.State) (q a : ℕ)
        → Step
            (world p q a (xs ++ queueing ∷ ys))
            (world p (fetch_add_one q) a (xs ++ enqueued q ∷ ys))
    turns_away :
        (xs ys : List Task) (p : semaphore.State) (q a : ℕ)
        → Step
            (world p q a (xs ++ overfull ∷ ys))
            (world p (fetch_sub_one q) a (xs ++ rejected ∷ ys))
    is_granted :
        (xs ys : List Task) (p left : semaphore.State) (q a : ℕ)
        → semaphore.try_acquire p ≡ some left
        → Step (world p q a (xs ++ waiting ∷ ys)) (world left q a (xs ++ granted ∷ ys))
    gives_up :
        (xs ys : List Task) (p : semaphore.State) (q a : ℕ) (reason : PoolRejection)
        → Step (world p q a (xs ++ waiting ∷ ys)) (world p q a (xs ++ gave_up reason ∷ ys))
    cancels :
        (xs ys : List Task) (p : semaphore.State) (q a : ℕ)
        → Step (world p q a (xs ++ waiting ∷ ys)) (world p q a (xs ++ cancelled ∷ ys))
    leaves_with_permit :
        (xs ys : List Task) (p : semaphore.State) (q a : ℕ)
        → Step (world p q a (xs ++ granted ∷ ys)) (world p (fetch_sub_one q) a (xs ++ holding ∷ ys))
    leaves_without :
        (xs ys : List Task) (p : semaphore.State) (q a : ℕ) (reason : PoolRejection)
        → Step
            (world p q a (xs ++ gave_up reason ∷ ys))
            (world p (fetch_sub_one q) a (xs ++ rejected ∷ ys))
    start_pool_use :
        (xs ys : List Task) (p : semaphore.State) (q a : ℕ)
        → Step (world p q a (xs ++ holding ∷ ys)) (world p q (fetch_add_one a) (xs ++ active ∷ ys))
    finish_pool_use :
        (xs ys : List Task) (p : semaphore.State) (q a : ℕ)
        → Step (world p q a (xs ++ active ∷ ys)) (world p q (fetch_sub_one a) (xs ++ dropping ∷ ys))
    gives_back :
        (xs ys : List Task) (p : semaphore.State) (q a : ℕ)
        → Step
            (world p q a (xs ++ dropping ∷ ys))
            (world (semaphore.release p) q a (xs ++ returned ∷ ys))

  pub data Reachable : World → Type 0 where
    initially : Reachable (world (semaphore.new limits.max) 0 0 [])
    next : {v w : World} → Reachable v → Step v w → Reachable w
