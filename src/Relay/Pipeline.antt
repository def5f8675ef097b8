-- ===== src/Relay/Pipeline.antt =====
-- crates/pavis-relay/src/pipeline: backoff.rs, and the loop of loop_logic.rs that starts the stream of
-- artifacts again. Durations are nanoseconds; what an artifact comes to is part of its
-- arrival.
pub mod Delays
use pavis.Prelude.{ℕ, ◌-◌, ◌*◌, ◌^◌, min, Bool, true, false, Option, none, some, List, [], ◌∷◌}

-- `Duration::MAX`.
abbrev pub duration_max : ℕ
duration_max = 2 ^ 64 * 1000000000 - 1

abbrev pub saturating_mul : ℕ → ℕ → ℕ
saturating_mul a b = min (a * b) duration_max

pub record BackoffConfig : Type 0 where
  pub base_delay : ℕ
  pub max_delay : ℕ

pub record Backoff : Type 0 where
  pub config : BackoffConfig
  pub next : ℕ

unfoldable pub new : BackoffConfig → Backoff
new settings = record { config = settings; next = settings.base_delay }

unfoldable pub reset : Backoff → Backoff
reset b = record { config = b.config; next = b.config.base_delay }

unfoldable pub next_delay : Backoff → ℕ × Backoff
next_delay b =
    (b.next, record { config = b.config; next = min (saturating_mul b.next 2) b.config.max_delay })

-- What wakes the inner `select`: an artifact is done, the stream is at its end, or a shutdown.
pub data Arrival : Type 0 where
  outcome : (succeeded : Bool) → Arrival
  exhausted shutting_down : Arrival

-- The inner loop breaks, returns, or waits for what has not arrived.
pub data Served : Type 0 where
  restarting returned waiting : Served

unfoldable pub serve : List Arrival → Served
serve [] = waiting
serve (outcome succeeded ∷ arrivals) = serve arrivals
serve (exhausted ∷ arrivals) = restarting
serve (shutting_down ∷ arrivals) = returned

-- One turn of the outer loop: the flag of the shutdown, the stream (`none` is a failure to start it),
-- and whether the sleep after it is over before a shutdown.
pub record Turn : Type 0 where
  pub shutdown : Bool
  pub stream : Option (List Arrival)
  pub slept : Bool

abbrev pub paused : ℕ × Backoff → (slept : Bool) → (Backoff → List ℕ) → List ℕ
paused (delay, b) true next = delay ∷ next b
paused (delay, b) false next = delay ∷ []

abbrev pub behind : Served → Backoff → (slept : Bool) → (Backoff → List ℕ) → List ℕ
behind restarting b slept next = paused (next_delay b) slept next
behind returned b slept next = []
behind waiting b slept next = []

abbrev pub started : Option (List Arrival) → Backoff → (slept : Bool) → (Backoff → List ℕ) → List ℕ
started none b slept next = paused (next_delay b) slept next
started (some arrivals) b slept next = behind (serve arrivals) (reset b) slept next

abbrev pub unless : (shutdown : Bool) → List ℕ → List ℕ
unless true delays = []
unless false delays = delays

-- The delays of the loop over its turns.
unfoldable pub run_from : Backoff → List Turn → List ℕ
run_from b [] = []
run_from b (turn ∷ turns) =
    unless turn.shutdown (started turn.stream b turn.slept (λ b'. run_from b' turns))

unfoldable pub run_pipeline : BackoffConfig → List Turn → List ℕ
run_pipeline settings turns = run_from (new settings) turns
