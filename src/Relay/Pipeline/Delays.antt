-- ===== src/Relay/Pipeline/Delays.antt =====
-- The delays of the pipeline, from the number of failures in a row.
use native.Mathlib.Nat.{pow-suc, mul_assoc}
use pavis.Prelude.{
  ℕ, zero, suc, ◌*◌, ◌^◌, ◌≤◌, min, Bool, true, false, Option, none, some, List, [], ◌∷◌, map, ◌≡◌,
  refl, sym, ap, ◌∙◌, arith,
}
use pavis.Relay.Pipeline.{
  duration_max, saturating_mul, BackoffConfig, Backoff, new, reset, next_delay, Arrival, Served,
  restarting, returned, waiting, serve, Turn, paused, behind, started, unless, run_from,
  run_pipeline,
}

-- The delay behind `rank` others in a row, without saturation.
abbrev pub documented : BackoffConfig → (rank : ℕ) → ℕ
documented settings zero = settings.base_delay
documented settings (suc rank) = min (settings.base_delay * 2 ^ suc rank) settings.max_delay

abbrev pub unless_shut : (stopped : Bool) → List ℕ → List ℕ
unless_shut true ranks = []
unless_shut false ranks = ranks

abbrev pub more : ℕ → (slept : Bool) → (ℕ → List ℕ) → List ℕ
more rank true next = rank ∷ next (suc rank)
more rank false next = rank ∷ []

abbrev pub over : Served → (slept : Bool) → (ℕ → List ℕ) → List ℕ
over restarting slept next = more 0 slept next
over returned slept next = []
over waiting slept next = []

abbrev pub rank_of : Option (List Arrival) → ℕ → (slept : Bool) → (ℕ → List ℕ) → List ℕ
rank_of none rank slept next = more rank slept next
rank_of (some arrivals) rank slept next = over (serve arrivals) slept next

-- The number of sleeps since the stream was last started, at each sleep.
abbrev pub ranks : ℕ → List Turn → List ℕ
ranks rank [] = []
ranks rank (turn ∷ turns) =
    unless_shut turn.shutdown (rank_of turn.stream rank turn.slept (λ r. ranks r turns))

abbrev at_rank : BackoffConfig → ℕ → Backoff
at_rank settings rank = record { config = settings; next = documented settings rank }

module _ (settings : BackoffConfig) (fits : settings.max_delay ≤ duration_max) where
  doubled :
      (rank : ℕ)
      → min (saturating_mul (documented settings rank) 2) settings.max_delay
        ≡ documented settings (suc rank)
  doubled zero = ground (arith, fits)
  doubled (suc rank) =
      let power : settings.base_delay * 2 ^ suc (suc rank)
          ≡ settings.base_delay * 2 ^ suc rank * 2 =
        ap (λ p. settings.base_delay * p) (pow-suc 2 (suc rank))
        ∙ sym (mul_assoc settings.base_delay (2 ^ suc rank) 2) in
      ground (arith, power, fits)

  paused_lem :
      (rank : ℕ) (slept : Bool) (next : Backoff → List ℕ) (later : ℕ → List ℕ)
      → ((r : ℕ) → next (at_rank settings r) ≡ map (documented settings) (later r))
      → paused (next_delay (at_rank settings rank)) slept next
        ≡ map (documented settings) (more rank slept later)
  unfolding next_delay
  paused_lem rank true next later step =
      ap (λ delays. documented settings rank ∷ delays)
        (ap (λ d. next (record { config = settings; next = d })) (doubled rank) ∙ step (suc rank))
  paused_lem rank false next later step = refl

  behind_lem :
      (served : Served) (slept : Bool) (next : Backoff → List ℕ) (later : ℕ → List ℕ)
      → ((r : ℕ) → next (at_rank settings r) ≡ map (documented settings) (later r))
      → behind served (at_rank settings 0) slept next
        ≡ map (documented settings) (over served slept later)
  behind_lem restarting slept next later step = paused_lem 0 slept next later step
  behind_lem returned slept next later step = refl
  behind_lem waiting slept next later step = refl

  started_lem :
      (stream : Option (List Arrival)) (rank : ℕ) (slept : Bool) (next : Backoff → List ℕ)
      (later : ℕ → List ℕ)
      → ((r : ℕ) → next (at_rank settings r) ≡ map (documented settings) (later r))
      → started stream (at_rank settings rank) slept next
        ≡ map (documented settings) (rank_of stream rank slept later)
  unfolding reset
  started_lem none rank slept next later step = paused_lem rank slept next later step
  started_lem (some arrivals) rank slept next later step =
      behind_lem (serve arrivals) slept next later step

  unless_lem :
      (stopped : Bool) (delays later : List ℕ)
      → delays ≡ map (documented settings) later
      → unless stopped delays ≡ map (documented settings) (unless_shut stopped later)
  unless_lem true delays later same = refl
  unless_lem false delays later same = same

  run_from_lem :
      (turns : List Turn) (rank : ℕ)
      → run_from (at_rank settings rank) turns ≡ map (documented settings) (ranks rank turns)
  unfolding run_from
  run_from_lem [] rank = refl
  run_from_lem (turn ∷ turns) rank =
      unless_lem turn.shutdown
        (started turn.stream (at_rank settings rank) turn.slept (λ b. run_from b turns))
        (rank_of turn.stream rank turn.slept (λ r. ranks r turns))
        (started_lem turn.stream rank turn.slept (λ b. run_from b turns) (λ r. ranks r turns)
          (run_from_lem turns))

-- If the longest delay is a `Duration`, then the delays of a pipeline, whatever its streams and
-- shutdowns do, are these: the base delay at the first failure to start a stream and whenever a
-- stream has ended, and with each failure in a row behind it twice as much, up to the longest delay.
-- Saturation never shows.
pub run_pipeline-documented :
    (settings : BackoffConfig)
    → settings.max_delay ≤ duration_max
    → (turns : List Turn) → run_pipeline settings turns ≡ map (documented settings) (ranks 0 turns)
unfolding run_pipeline new
run_pipeline-documented settings fits turns = run_from_lem settings fits turns 0
