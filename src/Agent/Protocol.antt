-- ===== src/Agent/Protocol.antt =====
-- The steps of the agent as a relation: in which state it takes which event, where that leads, and
-- what it then asks of its driver.
use pavis.Prelude.{
  ℕ, ◌≡◌, refl, inl, inr, Bool, true, false, Option, none, some, List, [], ◌∷◌, Bool-cases, ◌&&◌,
  arith,
}
use pavis.Prelude.Text.{Text}
use pavis.Agent.{
  wait_ms, Context, Artifact, VerifiedUpdate, State, idle, fetching, verifying, applying,
  backoff_sleeping, stopped, Response, new_artifact, no_update, need_resync, transient_unavailable,
  Event, start, response, verify_ok, verify_fail, apply_ok, apply_fail, timer_fired, shutdown,
  is_etag, is_before, Effect, fetch_conditional, fetch_unconditional, verify, apply, schedule_timer,
  discard_temp, Fsm, fetch_effect, backoff_delay, clear_rejected_if_expired, on_response,
  on_verify_ok, dispatch, tick,
}

-- One fetch that waits for 30 seconds.
pub data IsFetch : Effect → Type 0 where
  conditionally : {etag : Text} → IsFetch (fetch_conditional wait_ms etag)
  unconditionally : IsFetch (fetch_unconditional wait_ms)

-- An artifact with this tag failed, and its rejection is not over.
abbrev pub is_rejected : Text → ℕ → Context → Bool
is_rejected etag now c = is_etag etag c.last_rejected_etag && is_before now c.last_rejected_until

-- The events that a state takes.
abbrev pub takes : State → Event → Bool
takes idle (start now) = true
takes idle (timer_fired now) = true
takes fetching (response r now) = true
takes (verifying a) (verify_ok u now) = true
takes (verifying a) (verify_fail etag now) = true
takes (applying u) (apply_ok etag version now) = true
takes (applying u) (apply_fail etag now) = true
takes backoff_sleeping (timer_fired now) = true
takes _ shutdown = true
takes _ _ = false

pub data Step (random : ℕ) (c : Context) : State → Event → State → List Effect → Type 0 where
  starts : {now : ℕ} → Step random c idle (start now) fetching (fetch_unconditional wait_ms ∷ [])
  polls_first :
      {now : ℕ} {e : Effect} → IsFetch e → Step random c idle (timer_fired now) fetching (e ∷ [])
  skips :
      {now : ℕ} {a : Artifact} {e : Effect}
      → is_rejected a.etag now c ≡ true
      → IsFetch e
      → Step random c fetching (response (new_artifact a) now) fetching (e ∷ [])
  verifies :
      {now : ℕ} {a : Artifact}
      → is_rejected a.etag now c ≡ false
      → Step random c fetching (response (new_artifact a) now) (verifying a) (verify a ∷ [])
  polls_again :
      {now : ℕ} {e : Effect}
      → IsFetch e
      → Step random c fetching (response no_update now) fetching (e ∷ [])
  resyncs :
      {now : ℕ}
      → Step random c fetching
          (response need_resync now)
          fetching
          (fetch_unconditional wait_ms ∷ [])
  waits :
      {now : ℕ}
      → Step random c fetching
          (response transient_unavailable now)
          backoff_sleeping
          (schedule_timer (backoff_delay random c.backoff_attempt) ∷ [])
  has_already :
      {now : ℕ} {a : Artifact} {u : VerifiedUpdate} {e : Effect}
      → is_etag u.etag c.last_applied_etag ≡ true
      → IsFetch e
      → Step random c (verifying a) (verify_ok u now) fetching (discard_temp u.tmp_path ∷ e ∷ [])
  applies :
      {now : ℕ} {a : Artifact} {u : VerifiedUpdate}
      → is_etag u.etag c.last_applied_etag ≡ false
      → Step random c (verifying a) (verify_ok u now) (applying u) (apply u ∷ [])
  is_invalid :
      {now : ℕ} {a : Artifact} {etag : Text}
      → Step random c
          (verifying a)
          (verify_fail etag now)
          backoff_sleeping
          (schedule_timer (backoff_delay random c.backoff_attempt) ∷ [])
  has_applied :
      {now : ℕ} {u : VerifiedUpdate} {etag : Text} {version : Option ℕ} {e : Effect}
      → IsFetch e
      → Step random c (applying u) (apply_ok etag version now) fetching (e ∷ [])
  has_failed :
      {now : ℕ} {u : VerifiedUpdate} {etag : Text}
      → Step random c
          (applying u)
          (apply_fail etag now)
          backoff_sleeping
          (schedule_timer (backoff_delay random c.backoff_attempt) ∷ [])
  wakes :
      {now : ℕ} {e : Effect}
      → IsFetch e
      → Step random c backoff_sleeping (timer_fired now) fetching (e ∷ [])
  stops : {s : State} → Step random c s shutdown stopped []
  ignores : {s : State} {event : Event} → takes s event ≡ false → Step random c s event s []

fetch_effect-IsFetch : (o : Option Text) → IsFetch (fetch_effect o)
unfolding fetch_effect
fetch_effect-IsFetch none = unconditionally
fetch_effect-IsFetch (some etag) = conditionally

-- Clearing what has expired changes neither of the two tests.
cleared_lem :
    (etag : Text) (now : ℕ) (c : Context)
    → (is_rejected etag now (clear_rejected_if_expired now c) ≡ is_rejected etag now c)
      × ((clear_rejected_if_expired now c).last_applied_etag ≡ c.last_applied_etag)
      × ((clear_rejected_if_expired now c).backoff_attempt ≡ c.backoff_attempt)
unfolding clear_rejected_if_expired
cleared_lem etag now c = ground arith

module _ (random : ℕ) where
  on_response-Step :
      (r : Response) (now : ℕ) (c : Context)
      → let answer = on_response random r now (clear_rejected_if_expired now c) in
        Step random c fetching (response r now) answer.0.state answer.1
  unfolding on_response
  on_response-Step (new_artifact a) now c =
      let (kept, _, _) = cleared_lem a.etag now c in
      elim (Bool-cases (is_rejected a.etag now c)) [
        | inl rejected ↦ rw (kept, rejected) (skips rejected (fetch_effect-IsFetch _))
        | inr fresh ↦ rw (kept, fresh) (verifies fresh)
      ]
  on_response-Step no_update now c = polls_again (fetch_effect-IsFetch _)
  on_response-Step need_resync now c = resyncs
  on_response-Step transient_unavailable now c =
      let (_, _, kept) = cleared_lem [] now c in rw kept waits

  on_verify_ok-Step :
      (a : Artifact) (u : VerifiedUpdate) (now : ℕ) (c : Context)
      → let answer = on_verify_ok u now (clear_rejected_if_expired now c) in
        Step random c (verifying a) (verify_ok u now) answer.0.state answer.1
  unfolding on_verify_ok
  on_verify_ok-Step a u now c =
      let (_, kept, _) = cleared_lem [] now c in
      elim (Bool-cases (is_etag u.etag c.last_applied_etag)) [
        | inl known ↦ rw (kept, known) (has_already known (fetch_effect-IsFetch _))
        | inr fresh ↦ rw (kept, fresh) (applies fresh)
      ]

  dispatch-Step :
      (s : State) (event : Event) (c : Context)
      → Step random c s event (dispatch random s event c).0.state (dispatch random s event c).1
  unfolding dispatch
  dispatch-Step idle (start now) c = starts
  dispatch-Step idle (timer_fired now) c = polls_first (fetch_effect-IsFetch _)
  dispatch-Step idle shutdown c = stops
  dispatch-Step fetching (response r now) c = on_response-Step r now c
  dispatch-Step fetching shutdown c = stops
  dispatch-Step (verifying a) (verify_ok u now) c = on_verify_ok-Step a u now c
  dispatch-Step (verifying a) (verify_fail etag now) c = is_invalid
  dispatch-Step (verifying a) shutdown c = stops
  dispatch-Step (applying u) (apply_ok etag version now) c = has_applied (fetch_effect-IsFetch _)
  dispatch-Step (applying u) (apply_fail etag now) c = has_failed
  dispatch-Step (applying u) shutdown c = stops
  dispatch-Step backoff_sleeping (timer_fired now) c = wakes (fetch_effect-IsFetch _)
  dispatch-Step backoff_sleeping shutdown c = stops
  dispatch-Step stopped shutdown c = stops
  dispatch-Step _ _ c = ignores refl

  dispatch-ignored :
      (s : State) (event : Event) (c : Context)
      → takes s event ≡ false
      → (dispatch random s event c).0.ctx ≡ c
  unfolding dispatch
  dispatch-ignored s event c e = ground arith

-- Whatever happens, in whatever state, the agent makes a step of the relation: an artifact is
-- verified unless one with its tag was rejected and is still, an update is applied when it was
-- reported as verified unless its tag is the applied one (then its file is discarded), a failure of
-- either and an unavailable relay lead to a wait of the backoff, all else that a state takes to
-- exactly one fetch, and shutdown to the end. Events that the state does not take change nothing.
pub tick-Step :
    (random : ℕ) (fsm : Fsm) (event : Event)
    → Step random fsm.ctx fsm.state event (tick random fsm event).0.state (tick random fsm event).1
      × (takes fsm.state event ≡ false → (tick random fsm event).0.ctx ≡ fsm.ctx)
unfolding tick
tick-Step random fsm event =
    (dispatch-Step random fsm.state event fsm.ctx, dispatch-ignored random fsm.state event fsm.ctx)
