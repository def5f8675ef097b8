-- ===== src/Agent/Quarantine.antt =====
-- The time for which an artifact that failed is left alone.
use pavis.Prelude.{
  ℕ, suc, ◌+◌, Bool, true, false, ◌≡◌, refl, Option, none, some, List, [], ◌∷◌, ◌++◌, all, ltb,
  if◌then◌else◌, arith,
}
use pavis.Prelude.Text.{Text, text_eq}
use pavis.Agent.{
  State, verifying, applying, need_resync, Event, start, response, verify_ok, verify_fail,
  apply_fail, timer_fired, shutdown, Effect, verify, Fsm, reject_ttl, tick, run,
}

-- How often effects ask to verify an artifact with a tag.
abbrev pub verifies_of : Text → List Effect → ℕ
verifies_of etag [] = 0
verifies_of etag (verify a ∷ es) =
    if text_eq etag a.etag then suc (verifies_of etag es) else verifies_of etag es
verifies_of etag (_ ∷ es) = verifies_of etag es

verifies_of-append :
    (etag : Text) (xs ys : List Effect)
    → verifies_of etag (xs ++ ys) ≡ verifies_of etag xs + verifies_of etag ys
verifies_of-append etag [] ys = omega arith
verifies_of-append etag (verify a ∷ xs) ys = ground (arith, verifies_of-append etag xs ys)
verifies_of-append etag (_ ∷ xs) ys = verifies_of-append etag xs ys

-- The events before a time that neither ask for a resync nor end the attempt at another artifact.
abbrev pub keeps : ℕ → ℕ × Event → Bool
keeps until (random, start now) = ltb now until
keeps until (random, response need_resync now) = false
keeps until (random, response _ now) = ltb now until
keeps until (random, verify_ok u now) = ltb now until
keeps until (random, timer_fired now) = ltb now until
keeps until (random, shutdown) = true
keeps until _ = false

record IsRejected (etag : Text) (until : ℕ) (fsm : Fsm) : Type 0 where
  tag : fsm.ctx.last_rejected_etag ≡ some etag
  end : fsm.ctx.last_rejected_until ≡ some until

tick-IsRejected :
    (etag : Text) (until random : ℕ) (fsm : Fsm) (event : Event)
    → IsRejected etag until fsm
    → keeps until (random, event) ≡ true
    → IsRejected etag until (tick random fsm event).0
unfolding tick
tick-IsRejected etag until random fsm event r k = ground (arith, r.tag, r.end)

tick-verifies_of :
    (etag : Text) (until random : ℕ) (fsm : Fsm) (event : Event)
    → IsRejected etag until fsm
    → keeps until (random, event) ≡ true
    → verifies_of etag (tick random fsm event).1 ≡ 0
unfolding tick
tick-verifies_of etag until random fsm event r k = ground (arith, r.tag, r.end)

run-verifies_of :
    (etag : Text) (until : ℕ) (fsm : Fsm) (events : List (ℕ × Event))
    → IsRejected etag until fsm
    → all (keeps until) events ≡ true
    → verifies_of etag (run fsm events).1 ≡ 0
unfolding run
run-verifies_of etag until fsm [] r k = refl
run-verifies_of etag until fsm ((random, event) ∷ events) r k =
    let (fsm', effects) = tick random fsm event in
    ground (
      arith,
      verifies_of-append etag effects (run fsm' events).1,
      tick-IsRejected etag until random fsm event r,
      tick-verifies_of etag until random fsm event r,
      run-verifies_of etag until fsm' events,
    )

-- The tag and the time of the failure that an event reports of the attempt under way.
abbrev pub failure : State → Event → Option (Text × ℕ)
failure (verifying a) (verify_fail etag now) = some (etag, now)
failure (applying u) (apply_fail etag now) = some (etag, now)
failure _ _ = none

fail-IsRejected :
    (etag : Text) (random now : ℕ) (fsm : Fsm) (event : Event)
    → failure fsm.state event ≡ some (etag, now)
    → IsRejected etag (now + reject_ttl) (tick random fsm event).0
unfolding tick
fail-IsRejected etag random now fsm event f = ground (arith, f)

fail-verifies_of :
    (etag : Text) (random now : ℕ) (fsm : Fsm) (event : Event)
    → failure fsm.state event ≡ some (etag, now)
    → verifies_of etag (tick random fsm event).1 ≡ 0
unfolding tick
fail-verifies_of etag random now fsm event f = ground (arith, f)

-- When the verification or the application of an artifact fails, the agent asks for no further
-- verification of an artifact with its tag within the ten minutes that follow, as long as no other
-- attempt ends and the relay does not ask for a resync.
pub failed_stays_rejected :
    (fsm : Fsm) (etag : Text) (random now : ℕ) (event : Event) (events : List (ℕ × Event))
    → failure fsm.state event ≡ some (etag, now)
    → all (keeps (now + reject_ttl)) events ≡ true
    → verifies_of etag (run fsm ((random, event) ∷ events)).1 ≡ 0
unfolding run
failed_stays_rejected fsm etag random now event events f k =
    let (fsm', effects) = tick random fsm event in
    ground (
      arith,
      verifies_of-append etag effects (run fsm' events).1,
      fail-verifies_of etag random now fsm event f,
      run-verifies_of etag (now + reject_ttl) fsm' events
          (fail-IsRejected etag random now fsm event f) k,
    )
