-- ===== src/Upstream/Pool/Counted.antt =====
-- What the counters of a pool count, under every interleaving.
use pavis.Prelude.{
  ℕ, ◌+◌, ◌^◌, ◌≤◌, ◌<◌, ◌⊎◌, inl, inr, some, List, ◌∷◌, ◌++◌, leb, ◌==◌, ◌≡◌, refl, Bool-cases,
  Option-cases, arith,
}
use pavis.Upstream.Pool.{
  Semaphore, Task, calling, queueing, holding, overfull, waiting, cancelled, granted, gave_up,
  active, dropping, returned, rejected, Limits, fetch_add_one, fetch_sub_one, refused_or_queueing,
  attempted, enqueued, World, world, Step, called, attempts, enqueues, turns_away, is_granted,
  gives_up, cancels, leaves_with_permit, leaves_without, start_pool_use, finish_pool_use,
  gives_back, Reachable, initially, next,
}
use pavis.Upstream.Pool.Counts.{
  has_permit, has_place, is_queued, is_active, count, between, count-le, one, count-size,
  place-queued, queued-one, active-one, active-permit, add_fits, sub_fits,
}

-- A semaphore counts the permits that are left.
pub record IsSemaphore (semaphore : Semaphore) : Type 0 where
  pub available : semaphore.State → ℕ
  pub new_has : (n : ℕ) → available (semaphore.new n) ≡ n
  pub taken :
      (p left : semaphore.State)
      → semaphore.try_acquire p ≡ some left
      → available p ≡ available left + 1
  pub released : (p : semaphore.State) → available (semaphore.release p) ≡ available p + 1

module _ (semaphore : Semaphore) (law : IsSemaphore semaphore) (limits : Limits) where
  record IsCounted (w : World semaphore limits) : Type 0 where
    permits : law.available w.permits + count has_permit w.tasks ≡ limits.max
    queued : w.queued ≡ count is_queued w.tasks
    active : w.active_conns ≡ count is_active w.tasks
    places : count has_place w.tasks ≤ limits.queue_capacity
    tasks : count one w.tasks < 2 ^ 32

  -- One task moves on.
  moved :
      (xs ys : List Task) (t t' : Task) (p p' : semaphore.State) (q q' a a' : ℕ)
      → IsCounted (world semaphore limits p q a (xs ++ t ∷ ys))
      → law.available p' + has_permit t' ≡ law.available p + has_permit t
      → q' + is_queued t ≡ q + is_queued t'
      → a' + is_active t ≡ a + is_active t'
      → has_place t' + (count has_place xs + count has_place ys) ≤ limits.queue_capacity
      → IsCounted (world semaphore limits p' q' a' (xs ++ t' ∷ ys))
  moved xs ys t t' p p' q q' a a' w hp hq ha hc = record {
    permits = omega (arith, w.permits, hp, between has_permit xs ys t, between has_permit xs ys t');
    queued = omega (arith, w.queued, hq, between is_queued xs ys t, between is_queued xs ys t');
    active = omega (arith, w.active, ha, between is_active xs ys t, between is_active xs ys t');
    places = omega (arith, hc, between has_place xs ys t');
    tasks = omega (arith, w.tasks, between one xs ys t, between one xs ys t');
  }

  -- The place of the task does not grow.
  keeps :
      (xs ys : List Task) (t t' : Task) (p : semaphore.State) (q a : ℕ)
      → IsCounted (world semaphore limits p q a (xs ++ t ∷ ys))
      → has_place t' ≤ has_place t
      → has_place t' + (count has_place xs + count has_place ys) ≤ limits.queue_capacity
  keeps xs ys t t' p q a w h = omega (arith, w.places, between has_place xs ys t, h)

  refused_lem :
      {n : ℕ}
      → (n + has_permit (refused_or_queueing semaphore limits) ≡ n)
        × (is_queued (refused_or_queueing semaphore limits) ≡ 0)
        × (is_active (refused_or_queueing semaphore limits) ≡ 0)
        × (has_place (refused_or_queueing semaphore limits) ≡ 0)
  refused_lem = elim (Bool-cases (limits.queue_capacity == 0)) [
    | inl e ↦ rw e (omega arith, refl, refl, refl)
    | inr e ↦ elim (Bool-cases (limits.queue_timeout == 0)) [
      | inl k ↦ rw (e, k) (omega arith, refl, refl, refl)
      | inr k ↦ rw (e, k) (omega arith, refl, refl, refl)
    ]
  ]

  attempted_lem :
      (p : semaphore.State)
      → (law.available (attempted semaphore limits p).0
            + has_permit (attempted semaphore limits p).1
          ≡ law.available p)
        × (is_queued (attempted semaphore limits p).1 ≡ 0)
        × (is_active (attempted semaphore limits p).1 ≡ 0)
        × (has_place (attempted semaphore limits p).1 ≡ 0)
  unfolding attempted
  attempted_lem p = elim (Option-cases (semaphore.try_acquire p)) [
    | inl e ↦ rw (e, attempted) refused_lem
    | inr (left, e) ↦ rw (e, attempted) (omega (arith, law.taken p left e), refl, refl, refl)
  ]

  enqueued_lem :
      (q : ℕ)
      → (is_queued (enqueued semaphore limits q) ≡ 1)
        × (has_permit (enqueued semaphore limits q) ≡ 0)
        × (is_active (enqueued semaphore limits q) ≡ 0)
        × ((has_place (enqueued semaphore limits q) ≡ 0)
            ⊎ ((has_place (enqueued semaphore limits q) ≡ 1) × (q < limits.queue_capacity)))
  unfolding enqueued
  enqueued_lem q = elim (Bool-cases (leb limits.queue_capacity q)) [
    | inl e ↦ rw (e, enqueued) (refl, refl, refl, inl refl)
    | inr e ↦ rw (e, enqueued) (refl, refl, refl, inr (refl, ground (arith, e)))
  ]

  leaves :
      (xs ys : List Task) (t t' : Task) (p : semaphore.State) (q a : ℕ)
      → IsCounted (world semaphore limits p q a (xs ++ t ∷ ys))
      → has_permit t' ≡ has_permit t
      → is_queued t ≡ 1
      → is_queued t' ≡ 0
      → is_active t' ≡ is_active t
      → has_place t' ≤ has_place t
      → IsCounted (world semaphore limits p (fetch_sub_one q) a (xs ++ t' ∷ ys))
  leaves xs ys t t' p q a w hp hq hq' ha hc =
      let less = sub_fits is_queued xs ys t q queued-one hq w.queued w.tasks in
      moved xs ys t t' p p q (fetch_sub_one q) a a w (omega (arith, hp))
        (omega (arith, hq, hq', less)) (omega (arith, ha)) (keeps xs ys t t' p q a w hc)

  Step-IsCounted :
      (v w : World semaphore limits) → IsCounted v → Step semaphore limits v w → IsCounted w
  Step-IsCounted v w c (called ts p q a few) = record {
    permits = omega (arith, c.permits);
    queued = omega (arith, c.queued);
    active = omega (arith, c.active);
    places = omega (arith, c.places);
    tasks = omega (arith, few, count-size ts);
  }
  Step-IsCounted v w c (attempts xs ys p q a) =
      let (hp, hq, ha, hc) = attempted_lem p in
      let t' = (attempted semaphore limits p).1 in
      moved xs ys calling t' p (attempted semaphore limits p).0 q q a a c (omega (arith, hp))
        (omega (arith, hq)) (omega (arith, ha)) (keeps xs ys calling t' p q a c (omega (arith, hc)))
  Step-IsCounted v w c (enqueues xs ys p q a) =
      let (hq, hp, ha, place) = enqueued_lem q in
      let t' = enqueued semaphore limits q in
      let more = add_fits is_queued xs ys queueing q queued-one refl c.queued c.tasks in
      let room : has_place t' + (count has_place xs + count has_place ys) ≤ limits.queue_capacity =
        elim place [
          | inl none_taken ↦ keeps xs ys queueing t' p q a c (omega (arith, none_taken))
          | inr (taken, small) ↦ omega (
            arith,
            taken,
            small,
            c.queued,
            between is_queued xs ys queueing,
            count-le has_place is_queued xs place-queued,
            count-le has_place is_queued ys place-queued,
          )
        ] in
      moved xs ys queueing t' p p q (fetch_add_one q) a a c (omega (arith, hp))
        (omega (arith, hq, more)) (omega (arith, ha)) room
  Step-IsCounted v w c (turns_away xs ys p q a) =
      leaves xs ys overfull rejected p q a c refl refl refl refl (omega arith)
  Step-IsCounted v w c (is_granted xs ys p left q a e) =
      moved xs ys waiting granted p left q q a a c (omega (arith, law.taken p left e)) refl refl
        (keeps xs ys waiting granted p q a c (omega arith))
  Step-IsCounted v w c (gives_up xs ys p q a reason) =
      moved xs ys waiting (gave_up reason) p p q q a a c refl refl refl
        (keeps xs ys waiting (gave_up reason) p q a c (omega arith))
  Step-IsCounted v w c (cancels xs ys p q a) =
      moved xs ys waiting cancelled p p q q a a c refl refl refl
        (keeps xs ys waiting cancelled p q a c (omega arith))
  Step-IsCounted v w c (leaves_with_permit xs ys p q a) =
      leaves xs ys granted holding p q a c refl refl refl refl (omega arith)
  Step-IsCounted v w c (leaves_without xs ys p q a reason) =
      leaves xs ys (gave_up reason) rejected p q a c refl refl refl refl (omega arith)
  Step-IsCounted v w c (start_pool_use xs ys p q a) =
      let more = add_fits is_active xs ys holding a active-one refl c.active c.tasks in
      moved xs ys holding active p p q q a (fetch_add_one a) c refl refl (omega (arith, more))
        (keeps xs ys holding active p q a c (omega arith))
  Step-IsCounted v w c (finish_pool_use xs ys p q a) =
      let less = sub_fits is_active xs ys active a active-one refl c.active c.tasks in
      moved xs ys active dropping p p q q a (fetch_sub_one a) c refl refl (omega (arith, less))
        (keeps xs ys active dropping p q a c (omega arith))
  Step-IsCounted v w c (gives_back xs ys p q a) =
      moved xs ys dropping returned p (semaphore.release p) q q a a c
        (omega (arith, law.released p)) refl refl
        (keeps xs ys dropping returned p q a c (omega arith))

  Reachable-IsCounted : (w : World semaphore limits) → Reachable semaphore limits w → IsCounted w
  Reachable-IsCounted w initially = record {
    permits = omega (arith, law.new_has limits.max);
    queued = refl;
    active = refl;
    places = omega arith;
    tasks = omega arith;
  }
  Reachable-IsCounted w (next {v} r step) = Step-IsCounted v w (Reachable-IsCounted v r) step

  -- Under every interleaving of the calls, their waits and the drops of permits, the counter of
  -- connections is the number of permits in use and at most the limit of the pool, at most as many
  -- calls wait as the queue has places, and the counter of the queue is the number of calls that it
  -- has counted and not counted off, those included that were dropped while they waited.
  pub pool_is_bounded :
      (w : World semaphore limits)
      → Reachable semaphore limits w
      → (w.active_conns ≡ count is_active w.tasks)
        × (w.active_conns ≤ limits.max)
        × (count has_place w.tasks ≤ limits.queue_capacity)
        × (w.queued ≡ count is_queued w.tasks)
  pool_is_bounded w r =
      let c = Reachable-IsCounted w r in
      let used = count-le is_active has_permit w.tasks active-permit in
      (c.active, omega (arith, c.active, c.permits, used), c.places, c.queued)
