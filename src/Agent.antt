-- ===== src/Agent.antt =====
-- crates/pavis/src/agent/fsm.rs: the state machine by which the proxy follows its relay.
-- Instants and durations are numbers of milliseconds; the random number of the jitter is an argument.
pub mod Backoff
pub mod Protocol
pub mod Invariant
pub mod Verified
pub mod Quarantine
pub mod Resync
mod Tests
use pavis.Prelude.{
  ℕ, ◌+◌, ◌-◌, ◌*◌, ◌/◌, ◌%◌, ◌^◌, min, Bool, true, false, ◌&&◌, Option, none, some, List, [], ◌∷◌,
  ◌++◌, ltb, leb, ◌==◌, if◌then◌else◌,
}
use pavis.Prelude.Text.{Text, text_eq}

abbrev pub wait_ms : ℕ
wait_ms = 30000

abbrev pub reject_ttl : ℕ
reject_ttl = 600000

abbrev pub backoff_base : ℕ
backoff_base = 250

abbrev pub backoff_cap : ℕ
backoff_cap = 5000

abbrev pub backoff_jitter_pct : ℕ
backoff_jitter_pct = 10

abbrev pub u32_max : ℕ
u32_max = 2 ^ 32 - 1

-- `Duration::MAX`, in whole milliseconds.
abbrev pub duration_max : ℕ
duration_max = 2 ^ 64 * 1000 - 1

pub record Context : Type 0 where
  pub last_applied_etag : Option Text
  pub last_rejected_etag : Option Text
  pub last_rejected_until : Option ℕ
  pub backoff_attempt : ℕ
  pub observed_version : Option ℕ
  pub force_unconditional_count : ℕ

abbrev pub new_context : Context
new_context = record {
  last_applied_etag = none;
  last_rejected_etag = none;
  last_rejected_until = none;
  backoff_attempt = 0;
  observed_version = none;
  force_unconditional_count = 0;
}

pub record Artifact : Type 0 where
  pub etag : Text
  pub version : Option ℕ
  pub size : Option ℕ
  pub content : Text

pub record VerifiedUpdate : Type 0 where
  pub etag : Text
  pub version : Option ℕ
  pub size : Option ℕ
  pub tmp_path : Text

pub data State : Type 0 where
  idle fetching : State
  verifying : Artifact → State
  applying : VerifiedUpdate → State
  backoff_sleeping stopped : State

pub data Response : Type 0 where
  new_artifact : Artifact → Response
  no_update need_resync transient_unavailable : Response

pub data Event : Type 0 where
  start : (now : ℕ) → Event
  response : Response → (now : ℕ) → Event
  verify_ok : VerifiedUpdate → (now : ℕ) → Event
  verify_fail : (etag : Text) → (now : ℕ) → Event
  apply_ok : (etag : Text) → (version : Option ℕ) → (now : ℕ) → Event
  apply_fail : (etag : Text) → (now : ℕ) → Event
  timer_fired : (now : ℕ) → Event
  shutdown : Event

pub data Effect : Type 0 where
  fetch_conditional : (wait : ℕ) → (etag : Text) → Effect
  fetch_unconditional : (wait : ℕ) → Effect
  verify : Artifact → Effect
  apply : VerifiedUpdate → Effect
  schedule_timer : (duration : ℕ) → Effect
  discard_temp : (path : Text) → Effect

pub record Fsm : Type 0 where
  pub state : State
  pub ctx : Context

abbrev pub new : Fsm
new = record { state = idle; ctx = new_context }

-- What `bootstrap_from_lkg` of crates/pavis/src/agent/driver.rs does to the agent before it starts:
-- the tag is that of the last known good artifact, if there is one that could be loaded.
abbrev pub bootstrapped : (loaded : Option Text) → Fsm
bootstrapped none = new
bootstrapped (some etag) = record {
  state = idle;
  ctx = record new_context { last_applied_etag = some etag };
}

abbrev is_before : ℕ → Option ℕ → Bool
is_before now none = false
is_before now (some until) = ltb now until

abbrev is_past : ℕ → Option ℕ → Bool
is_past now none = false
is_past now (some until) = leb until now

clear_rejected_if_expired : ℕ → Context → Context
clear_rejected_if_expired now c =
    if is_past now c.last_rejected_until
    then record c { last_rejected_etag = none; last_rejected_until = none }
    else c

set_rejected : Text → ℕ → Context → Context
set_rejected etag now c = record c {
  last_rejected_etag = some etag;
  last_rejected_until = some (now + reject_ttl);
}

clear_conditional_state : Context → Context
clear_conditional_state c = record c {
  last_applied_etag = none;
  last_rejected_etag = none;
  last_rejected_until = none;
  force_unconditional_count = 2;
}

abbrev first_some : Option Text → Option Text → Option Text
first_some (some e) other = some e
first_some none other = other

-- The result behind the call to `clear_rejected_if_expired`.
etag_or_count : Context → Option Text × Context
etag_or_count c =
    if ltb 0 c.force_unconditional_count
    then (none, record c { force_unconditional_count = c.force_unconditional_count - 1 })
    else (first_some c.last_rejected_etag c.last_applied_etag, c)

conditional_etag : ℕ → Context → Option Text × Context
unfolding clear_rejected_if_expired etag_or_count
conditional_etag now c = etag_or_count (clear_rejected_if_expired now c)

-- `1u32 << min(attempt, 10)` times the base, capped, plus or minus a tenth.
capped_delay : ℕ → ℕ
capped_delay attempt =
    let exp = min (backoff_base * 2 ^ min attempt 10) duration_max in
    if ltb backoff_cap exp then backoff_cap else exp

jittered : ℕ → ℕ → ℕ → ℕ
jittered random capped range =
    let offset = random % (2 * range + 1) in
    if range == 0
    then capped
    else if leb range offset
    then capped + (offset - range)
    else capped - (range - offset)

pub backoff_delay : ℕ → ℕ → ℕ
unfolding capped_delay jittered
backoff_delay random attempt =
    let capped = capped_delay attempt in jittered random capped (capped * backoff_jitter_pct / 100)

abbrev Tick : Type 0
Tick = Fsm × List Effect

-- `state = Fetching`, and the fetch that `conditional_etag` asks for.
fetch_effect : Option Text → Effect
fetch_effect none = fetch_unconditional wait_ms
fetch_effect (some etag) = fetch_conditional wait_ms etag

refetch : List Effect → ℕ → Context → Tick
unfolding conditional_etag fetch_effect
refetch before now c =
    let (etag, c') = conditional_etag now c in
    (record { state = fetching; ctx = c' }, before ++ fetch_effect etag ∷ [])

back_off : ℕ → Context → Tick
unfolding backoff_delay
back_off random c = (
  record {
    state = backoff_sleeping;
    ctx = record c { backoff_attempt = min (c.backoff_attempt + 1) u32_max };
  },
  schedule_timer (backoff_delay random c.backoff_attempt) ∷ [],
)

abbrev is_etag : Text → Option Text → Bool
is_etag etag none = false
is_etag etag (some e) = text_eq e etag

-- The arms of `(State::Fetching, Event::Response)`.
on_response : ℕ → Response → ℕ → Context → Tick
unfolding refetch back_off clear_conditional_state
on_response random (new_artifact a) now c =
    if is_etag a.etag c.last_rejected_etag && is_before now c.last_rejected_until
    then refetch [] now (record c { backoff_attempt = 0 })
    else (record { state = verifying a; ctx = c }, verify a ∷ [])
on_response random no_update now c = refetch [] now (record c { backoff_attempt = 0 })
on_response random need_resync now c =
    let cleared = clear_conditional_state c in
    (
      record { state = fetching; ctx = record cleared { backoff_attempt = 0 } },
      fetch_unconditional wait_ms ∷ [],
    )
on_response random transient_unavailable now c = back_off random c

on_verify_ok : VerifiedUpdate → ℕ → Context → Tick
unfolding refetch
on_verify_ok update now c =
    if is_etag update.etag c.last_applied_etag
    then refetch (discard_temp update.tmp_path ∷ []) now (record c { backoff_attempt = 0 })
    else (record { state = applying update; ctx = c }, apply update ∷ [])

on_apply_ok : Text → Option ℕ → ℕ → Context → Tick
unfolding refetch
on_apply_ok etag version now c = refetch [] now (record c {
  last_applied_etag = if c.force_unconditional_count == 0 then some etag else c.last_applied_etag;
  last_rejected_etag = none;
  last_rejected_until = none;
  backoff_attempt = 0;
  observed_version = version;
})

-- The match of `tick`; the last clauses are the arms that do nothing.
dispatch : ℕ → State → Event → Context → Tick
unfolding clear_rejected_if_expired set_rejected on_response on_verify_ok on_apply_ok
dispatch random idle (start now) c = (
  record { state = fetching; ctx = clear_rejected_if_expired now c },
  fetch_unconditional wait_ms ∷ [],
)
dispatch random idle (timer_fired now) c = refetch [] now (clear_rejected_if_expired now c)
dispatch random idle shutdown c = (record { state = stopped; ctx = c }, [])
dispatch random fetching (response r now) c =
    on_response random r now (clear_rejected_if_expired now c)
dispatch random fetching shutdown c = (record { state = stopped; ctx = c }, [])
dispatch random (verifying a) (verify_ok update now) c =
    on_verify_ok update now (clear_rejected_if_expired now c)
dispatch random (verifying a) (verify_fail etag now) c = back_off random (set_rejected etag now c)
dispatch random (verifying a) shutdown c = (record { state = stopped; ctx = c }, [])
dispatch random (applying u) (apply_ok etag version now) c = on_apply_ok etag version now c
dispatch random (applying u) (apply_fail etag now) c = back_off random (set_rejected etag now c)
dispatch random (applying u) shutdown c = (record { state = stopped; ctx = c }, [])
dispatch random backoff_sleeping (timer_fired now) c =
    refetch [] now (clear_rejected_if_expired now c)
dispatch random backoff_sleeping shutdown c = (record { state = stopped; ctx = c }, [])
dispatch random s _ c = (record { state = s; ctx = c }, [])

pub tick : ℕ → Fsm → Event → Tick
unfolding dispatch
tick random fsm event = dispatch random fsm.state event fsm.ctx

-- `drain_effects`: all effects of a sequence of events, each with its random number.
pub run : Fsm → List (ℕ × Event) → Tick
unfolding tick
run fsm [] = (fsm, [])
run fsm ((random, event) ∷ events) =
    let (fsm', effects) = tick random fsm event in
    let (last, later) = run fsm' events in (last, effects ++ later)
