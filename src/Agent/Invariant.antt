-- ===== src/Agent/Invariant.antt =====
-- What holds of the agent's context after any events.
use pavis.Prelude.{
  ℕ, ◌≤◌, Bool, true, false, ◌≡◌, Option, none, some, List, [], ◌∷◌, ◌⊎◌, inl, any, arith,
}
use pavis.Prelude.Text.{Text, text_eq, text_eq_refl}
use pavis.Agent.{Event, apply_ok, Fsm, new, bootstrapped, u32_max, tick, run}

abbrev is_some : {A : Type 0} → Option A → Bool
is_some none = false
is_some (some a) = true

-- The rejected tag and the end of its rejection come and go together; the counters are in range.
pub record IsValid (fsm : Fsm) : Type 0 where
  pub paired : is_some fsm.ctx.last_rejected_etag ≡ is_some fsm.ctx.last_rejected_until
  pub forced : fsm.ctx.force_unconditional_count ≤ 2
  pub attempts : fsm.ctx.backoff_attempt ≤ u32_max

pub tick-IsValid :
    (random : ℕ) (fsm : Fsm) (event : Event) → IsValid fsm → IsValid (tick random fsm event).0
unfolding tick
tick-IsValid random fsm event v = ground arith

run-IsValid_from :
    (fsm : Fsm) (events : List (ℕ × Event)) → IsValid fsm → IsValid (run fsm events).0
unfolding run
run-IsValid_from fsm [] v = v
run-IsValid_from fsm ((random, event) ∷ events) v =
    run-IsValid_from (tick random fsm event).0 events (tick-IsValid random fsm event v)

-- After any events, with or without an artifact that was loaded before the start, a rejected tag is
-- remembered exactly as long as the time at which its rejection ends, at most two fetches are still
-- forced to be unconditional, and the attempts fit in 32 bits.
pub run-IsValid :
    (loaded : Option Text) (events : List (ℕ × Event))
    → IsValid (run (bootstrapped loaded) events).0
run-IsValid none events = run-IsValid_from new events (ground arith)
run-IsValid (some etag) events = run-IsValid_from (bootstrapped (some etag)) events (ground arith)

abbrev pub is_apply_ok : Text → ℕ × Event → Bool
is_apply_ok etag (random, apply_ok e version now) = text_eq e etag
is_apply_ok etag _ = false

tick-applied :
    (random : ℕ) (fsm : Fsm) (event : Event) (etag : Text)
    → (tick random fsm event).0.ctx.last_applied_etag ≡ some etag
    → (fsm.ctx.last_applied_etag ≡ some etag) ⊎ (is_apply_ok etag (random, event) ≡ true)
unfolding tick
tick-applied random fsm event etag e = ground (arith, text_eq_refl etag)

run-applied :
    (fsm : Fsm) (events : List (ℕ × Event)) (etag : Text)
    → (run fsm events).0.ctx.last_applied_etag ≡ some etag
    → (fsm.ctx.last_applied_etag ≡ some etag) ⊎ (any (is_apply_ok etag) events ≡ true)
unfolding run
run-applied fsm [] etag e = inl e
run-applied fsm ((random, event) ∷ events) etag e =
    ground (
      arith,
      run-applied (tick random fsm event).0 events etag e,
      tick-applied random fsm event etag,
    )

-- The tag that the agent holds for applied is that of the last known good artifact that was loaded
-- before the start, or was reported as applied among the events.
pub applied_was_reported :
    (loaded : Option Text) (events : List (ℕ × Event)) (etag : Text)
    → (run (bootstrapped loaded) events).0.ctx.last_applied_etag ≡ some etag
    → (loaded ≡ some etag) ⊎ (any (is_apply_ok etag) events ≡ true)
applied_was_reported none events etag e = run-applied new events etag e
applied_was_reported (some known) events etag e =
    run-applied (bootstrapped (some known)) events etag e
