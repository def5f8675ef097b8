-- ===== src/Agent/Verified.antt =====
-- What was verified and found good before it is applied.
use mathlib.Core.Option.{some-injective}
use pavis.Prelude.{
  ℕ, Option, none, some, List, [], ◌∷◌, ◌++◌, ◌≡◌, ◌≢◌, refl, ap, ◌⊎◌, inl, inr, arith,
}
use pavis.Prelude.Text.{Text}
use pavis.Agent.{
  State, verifying, Event, verify_ok, Artifact, VerifiedUpdate, Effect, verify, apply, Fsm,
  bootstrapped, tick, run,
}

abbrev pub Asks : Effect → List Effect → Type 0
Asks e [] = ⊥
Asks e (effect ∷ effects) = ◌⊎◌ {0, 0} (e ≡ effect) (Asks e effects)

Asks-append : (e : Effect) (xs ys : List Effect) → Asks e (xs ++ ys) → Asks e xs ⊎ Asks e ys
Asks-append e [] ys h = inr h
Asks-append e (x ∷ xs) ys (inl same) = inl (inl same)
Asks-append e (x ∷ xs) ys (inr later) = elim (Asks-append e xs ys later) [
  | inl left ↦ inl (inr left)
  | inr right ↦ inr right
]

Asks-left : (e : Effect) (xs ys : List Effect) → Asks e xs → Asks e (xs ++ ys)
Asks-left e [] ys h = elim h [ ]
Asks-left e (x ∷ xs) ys (inl same) = inl same
Asks-left e (x ∷ xs) ys (inr later) = inr (Asks-left e xs ys later)

Asks-right : (e : Effect) (xs ys : List Effect) → Asks e ys → Asks e (xs ++ ys)
Asks-right e [] ys h = h
Asks-right e (x ∷ xs) ys h = inr (Asks-right e xs ys h)

-- The update that an event reports to the state that waits for it.
abbrev reported : State → Event → Option VerifiedUpdate
reported (verifying a) (verify_ok u now) = some u
reported _ _ = none

reported_lem :
    (s : State) (event : Event) (u : VerifiedUpdate)
    → reported s event ≡ some u
    → (a : Artifact) × (now : ℕ) × (s ≡ verifying a) × (event ≡ verify_ok u now)
reported_lem (verifying a) (verify_ok v now) u e =
    (a, now, refl, ap (λ x. verify_ok x now) (some-injective v u e))
reported_lem _ _ u e = cc

tick-reported :
    (random : ℕ) (fsm : Fsm) (event : Event) (u : VerifiedUpdate)
    → Asks (apply u) (tick random fsm event).1
    → reported fsm.state event ≡ some u
unfolding tick
tick-reported random fsm event u h = ground arith

tick-apply :
    (random : ℕ) (fsm : Fsm) (event : Event) (u : VerifiedUpdate)
    → Asks (apply u) (tick random fsm event).1
    → (a : Artifact) × (now : ℕ) × (fsm.state ≡ verifying a) × (event ≡ verify_ok u now)
tick-apply random fsm event u h =
    reported_lem fsm.state event u (tick-reported random fsm event u h)

tick-verifying :
    (random : ℕ) (fsm : Fsm) (event : Event) (a : Artifact)
    → (tick random fsm event).0.state ≡ verifying a
    → (fsm.state ≡ verifying a) ⊎ Asks (verify a) (tick random fsm event).1
unfolding tick
tick-verifying random fsm event a h = ground arith

verify_was_asked :
    (fsm : Fsm) (events : List (ℕ × Event)) (a : Artifact)
    → (run fsm events).0.state ≡ verifying a
    → (fsm.state ≡ verifying a) ⊎ Asks (verify a) (run fsm events).1
unfolding run
verify_was_asked fsm [] a h = inl h
verify_was_asked fsm ((random, event) ∷ events) a h =
    let (fsm', effects) = tick random fsm event in
    let later = (run fsm' events).1 in
    elim (verify_was_asked fsm' events a h) [
      | inl held ↦ elim (tick-verifying random fsm event a held) [
        | inl already ↦ inl already
        | inr asked ↦ inr (Asks-left (verify a) effects later asked)
      ]
      | inr asked ↦ inr (Asks-right (verify a) effects later asked)
    ]

-- The events begin with some after which the agent verifies an artifact, and the next one reports
-- the update as verified.
abbrev pub WasReported : Fsm → List (ℕ × Event) → VerifiedUpdate → Type 0
WasReported fsm events u =
    (before after : List (ℕ × Event)) × (random now : ℕ) × (a : Artifact) × (events
      ≡ before ++ (random, verify_ok u now) ∷ after)
    × ((run fsm before).0.state ≡ verifying a)

apply-WasReported :
    (fsm : Fsm) (events : List (ℕ × Event)) (u : VerifiedUpdate)
    → Asks (apply u) (run fsm events).1
    → WasReported fsm events u
unfolding run
apply-WasReported fsm [] u h = elim h [ ]
apply-WasReported fsm ((random, event) ∷ events) u h =
    let (fsm', effects) = tick random fsm event in
    elim (Asks-append (apply u) effects (run fsm' events).1 h) [
      | inl now_asked ↦
          let (a, now, held, reported) = tick-apply random fsm event u now_asked in
          ([], events, random, now, a, ap (λ e. (random, e) ∷ events) reported, held)
      | inr later ↦
          let (before, after, r, now, a, split, held) = apply-WasReported fsm' events u later in
          ((random, event) ∷ before, after, r, now, a, ap (λ es. (random, event) ∷ es) split, held)
    ]

idle_before : (loaded : Option Text) (a : Artifact) → (bootstrapped loaded).state ≢ verifying a
idle_before none a e = cc
idle_before (some etag) a e = cc

-- When the agent asks to apply an update, over any events, then among these is the report that this
-- very update is verified, and it came while the agent waited for the verification of an artifact,
-- which it had asked for before. That the update is that of the artifact is left to the driver.
pub applied_was_verified :
    (loaded : Option Text) (events : List (ℕ × Event)) (u : VerifiedUpdate)
    → Asks (apply u) (run (bootstrapped loaded) events).1
    → (before after : List (ℕ × Event)) × (random now : ℕ) × (a : Artifact) × (events
        ≡ before ++ (random, verify_ok u now) ∷ after)
      × ((run (bootstrapped loaded) before).0.state ≡ verifying a)
      × Asks (verify a) (run (bootstrapped loaded) before).1
applied_was_verified loaded events u h =
    let (before, after, random, now, a, split, held) =
      apply-WasReported (bootstrapped loaded) events u h in
    elim (verify_was_asked (bootstrapped loaded) before a held) [
      | inl at_once ↦ absurd (idle_before loaded a at_once)
      | inr asked ↦ (before, after, random, now, a, split, held, asked)
    ]
