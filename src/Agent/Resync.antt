-- ===== src/Agent/Resync.antt =====
-- The three fetches after the relay has answered 410.
use pavis.Prelude.{
  ℕ, zero, suc, ◌≤◌, Bool, true, false, ◌≡◌, ◌⊎◌, inl, inr, refl, List, [], ◌∷◌, ◌++◌, All, take,
  arith,
}
use pavis.Agent.{
  fetching, need_resync, Event, response, Effect, fetch_conditional, fetch_unconditional, Fsm, tick,
  run,
}
use pavis.Agent.Invariant.{IsValid, tick-IsValid}

-- The fetches among effects: `true` for an unconditional one.
abbrev pub fetches : List Effect → List Bool
fetches [] = []
fetches (fetch_conditional wait etag ∷ es) = false ∷ fetches es
fetches (fetch_unconditional wait ∷ es) = true ∷ fetches es
fetches (_ ∷ es) = fetches es

fetches-append : (xs ys : List Effect) → fetches (xs ++ ys) ≡ fetches xs ++ fetches ys
fetches-append [] ys = refl
fetches-append (fetch_conditional wait etag ∷ xs) ys = rw (fetches-append xs ys)
fetches-append (fetch_unconditional wait ∷ xs) ys = rw (fetches-append xs ys)
fetches-append (_ ∷ xs) ys = fetches-append xs ys

abbrev forced : Fsm → ℕ
forced fsm = fsm.ctx.force_unconditional_count

tick-forced :
    (random : ℕ) (fsm : Fsm) (event : Event)
    → IsValid fsm
    → ((fetches (tick random fsm event).1 ≡ []) × (forced fsm ≤ forced (tick random fsm event).0))
      ⊎ ((fetches (tick random fsm event).1 ≡ true ∷ [])
          × (forced fsm ≤ suc (forced (tick random fsm event).0)))
      ⊎ (forced fsm ≡ 0)
unfolding tick
tick-forced random fsm event v = ground arith

-- As many of the next fetches are unconditional as are forced.
forced_fetches :
    (n : ℕ) (fsm : Fsm) (events : List (ℕ × Event))
    → n ≤ forced fsm
    → IsValid fsm
    → All (λ b. b ≡ true) (take n (fetches (run fsm events).1))
unfolding run
forced_fetches zero fsm events h v = tt
forced_fetches (suc n) fsm [] h v = tt
forced_fetches (suc n) fsm ((random, event) ∷ events) h v =
    let (fsm', effects) = tick random fsm event in
    let v' = tick-IsValid random fsm event v in
    let later = (run fsm' events).1 in
    elim (tick-forced random fsm event v) [
      | inl (silent, kept) ↦
          rw (fetches-append effects later, silent)
            (forced_fetches (suc n) fsm' events (omega arith) v')
      | inr (inl (once, fewer)) ↦
          rw (fetches-append effects later, once)
            (refl, forced_fetches n fsm' events (omega arith) v')
      | inr (inr nothing) ↦ absurd (omega arith)
    ]

tick-resync :
    (random now : ℕ) (fsm : Fsm)
    → fsm.state ≡ fetching
    → (fetches (tick random fsm (response need_resync now)).1 ≡ true ∷ [])
      × (forced (tick random fsm (response need_resync now)).0 ≡ 2)
unfolding tick
tick-resync random now fsm waiting = rw waiting (ground arith)

-- When the relay asks a valid agent for a resync in answer to a fetch, the next three fetches, of
-- which the first follows at once, are unconditional, whatever events lead to them: also if an
-- artifact is applied in between.
pub resync_fetches :
    (fsm : Fsm) (random now : ℕ) (events : List (ℕ × Event))
    → fsm.state ≡ fetching
    → IsValid fsm
    → All
        (λ b. b ≡ true)
        (take 3 (fetches (run fsm ((random, response need_resync now) ∷ events)).1))
unfolding run
resync_fetches fsm random now events waiting v =
    let event = response need_resync now in
    let (fsm', effects) = tick random fsm event in
    let (once, twice) = tick-resync random now fsm waiting in
    let after =
      forced_fetches 2 fsm' events (omega (arith, twice)) (tick-IsValid random fsm event v) in
    rw (fetches-append effects (run fsm' events).1, once) (refl, after)
