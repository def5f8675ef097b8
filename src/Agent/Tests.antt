-- ===== src/Agent/Tests.antt =====
-- Runs of the agent's state machine, and the theorems at them.
use pavis.Prelude.{
  ℕ, ◌*◌, ◌≤◌, true, false, ◌++◌, ◌⊎◌, inl, inr, Option, ◌≡◌, refl, none, some, List, [], ◌∷◌, All,
  any, take, arith,
}
use pavis.Prelude.Text.{Text}
use pavis.Agent.{
  Artifact, VerifiedUpdate, fetching, verifying, new_artifact, no_update, need_resync, Event, start,
  response, verify_ok, verify_fail, apply_ok, timer_fired, Fsm, bootstrapped, verify, apply, new,
  backoff_delay, tick, run,
}
use pavis.Agent.Backoff.{nominal_delay, backoff_delay_bounds}
use pavis.Agent.Protocol.{Step, takes, tick-Step}
use pavis.Agent.Verified.{Asks, applied_was_verified}
use pavis.Agent.Invariant.{IsValid, is_apply_ok, run-IsValid, applied_was_reported}
use pavis.Agent.Quarantine.{verifies_of, failed_stays_rejected}
use pavis.Agent.Resync.{fetches, resync_fetches}

abbrev tag : Text
tag = 97 ∷ []

abbrev artifact : Artifact
artifact = record { etag = tag; version = some 3; size = none; content = 1 ∷ [] }

abbrev update : VerifiedUpdate
update = record { etag = tag; version = some 3; size = none; tmp_path = 47 ∷ [] }

-- An artifact is fetched, verified and applied.
abbrev applied : List (ℕ × Event)
applied =
    (7, start 0)
    ∷ (7, response (new_artifact artifact) 10)
    ∷ (7, verify_ok update 20)
    ∷ (7, apply_ok tag (some 3) 30)
    ∷ []

-- After a failed verification the relay serves the same artifact again.
abbrev retried : List (ℕ × Event)
retried =
    (7, timer_fired 400)
    ∷ (7, response (new_artifact artifact) 410)
    ∷ (7, response no_update 420)
    ∷ []

abbrev busy : Fsm
busy = record { state = verifying artifact; ctx = new.ctx }

abbrev waiting : Fsm
waiting = record { state = fetching; ctx = new.ctx }

retry_is_refused : verifies_of tag (run busy ((7, verify_fail tag 30) ∷ retried)).1 ≡ 0
unfolding run
retry_is_refused = refl

retry_after_an_hour :
    verifies_of tag
      (run busy (
        (7, verify_fail tag 30)
        ∷ (7, timer_fired 3600000)
        ∷ (7, response (new_artifact artifact) 3600010)
        ∷ [])).1
    ≡ 1
unfolding run
retry_after_an_hour = refl

first_delay : backoff_delay 7 0 ≡ 232
unfolding backoff_delay
first_delay = refl

backoff_delay_bounds_example :
    (9 * nominal_delay 3 ≤ 10 * backoff_delay 7 3) × (10 * backoff_delay 7 3 ≤ 11 * nominal_delay 3)
backoff_delay_bounds_example = backoff_delay_bounds 7 3

tick-Step_example :
    Step 7 busy.ctx busy.state
      (verify_fail tag 30)
      (tick 7 busy (verify_fail tag 30)).0.state
      (tick 7 busy (verify_fail tag 30)).1
    × (takes busy.state (verify_fail tag 30) ≡ false
        → (tick 7 busy (verify_fail tag 30)).0.ctx ≡ busy.ctx)
tick-Step_example = tick-Step 7 busy (verify_fail tag 30)

abbrev loaded : Option Text
loaded = some (98 ∷ [])

run-IsValid_example : IsValid (run (bootstrapped loaded) applied).0
run-IsValid_example = run-IsValid loaded applied

Asks-apply : Asks (apply update) (run (bootstrapped loaded) applied).1
unfolding run
Asks-apply = inr (inr (inl refl))

applied_was_verified_example :
    (before after : List (ℕ × Event)) × (random now : ℕ) × (a : Artifact) × (applied
      ≡ before ++ (random, verify_ok update now) ∷ after)
    × ((run (bootstrapped loaded) before).0.state ≡ verifying a)
    × Asks (verify a) (run (bootstrapped loaded) before).1
applied_was_verified_example = applied_was_verified loaded applied update Asks-apply

last_applied : (run (bootstrapped loaded) applied).0.ctx.last_applied_etag ≡ some tag
unfolding run
last_applied = refl

applied_was_reported_example : (loaded ≡ some tag) ⊎ (any (is_apply_ok tag) applied ≡ true)
applied_was_reported_example = applied_was_reported loaded applied tag last_applied

failed_stays_rejected_example : verifies_of tag (run busy ((7, verify_fail tag 30) ∷ retried)).1 ≡ 0
failed_stays_rejected_example =
    failed_stays_rejected busy tag 7 30 (verify_fail tag 30) retried refl refl

waiting-IsValid : IsValid waiting
waiting-IsValid = ground arith

resync_fetches_example :
    All (λ b. b ≡ true) (take 3 (fetches (run waiting ((7, response need_resync 5) ∷ applied)).1))
resync_fetches_example = resync_fetches waiting 7 5 applied refl waiting-IsValid
