-- ===== src/Relay/Publish/Retries.antt =====
-- The end of the loop that publishes again.
use mathlib.Core.Path.{subst}
use pavis.Prelude.{
  ℕ, sym, zero, suc, ◌+◌, ◌-◌, ◌%◌, ◌^◌, ◌≤◌, ◌<◌, Bool, true, false, Option, none, some, List, ◌≡◌,
  refl, inl, inr, leb, arith,
}
use pavis.Pvs.{Digest, Rkyv, encode}
use pavis.Relay.Disk.{Disk, Fault, Io}
use pavis.Relay.Disk.Hoare.{Ends, Ends-and_then}
use pavis.Relay.Storage.{Json, ArtifactMetadata, RelayState}
use pavis.Relay.Runtime.{RelayRuntimeState, Answer, accepted, refused}
use pavis.Relay.Publish.{retried, publish_config, publish_with_retry}
use pavis.Relay.Publish.Written.{IsJson}
use pavis.Relay.Publish.Unchanged.{result_cases, IsUnchanged, publish_bytes-IsUnchanged}

-- The loop came to its end, and has left the memory as it was where it failed.
abbrev pub HasEnded : RelayRuntimeState → Option (Answer ArtifactMetadata) → Type 0
HasEnded state none = ⊥
HasEnded state (some answer) = IsUnchanged state answer

module _ (digest : Digest) {Config : Type 0} (rkyv : Rkyv Config)
    (metadata_json : Json ArtifactMetadata) (state_codec : Json RelayState)
    (metadata_law : IsJson metadata_json) (state_law : IsJson state_codec) (settings : Config)
    (state : RelayRuntimeState) where
  publish_config-IsUnchanged :
      (now : ℕ) (d : Disk) (fs : List Fault)
      → Ends
          (λ answer _. IsUnchanged state answer)
          (λ _. ⊥)
          (λ _. Unit {0})
          (publish_config digest rkyv metadata_json state_codec settings now state d fs)
  unfolding publish_config
  publish_config-IsUnchanged now d fs = elim (result_cases (encode digest rkyv settings)) [
    | inl (e, bad) ↦ rw (publish_config, bad) refl
    | inr (artifact, good) ↦
        rw (publish_config, good)
          (publish_bytes-IsUnchanged digest rkyv metadata_json state_codec metadata_law state_law
            state d artifact now fs)
  ]

  continues :
      (more : Bool) (next : RelayRuntimeState → Io (Option (Answer ArtifactMetadata)))
      (answer : Answer ArtifactMetadata) (d : Disk) (fs : List Fault)
      → IsUnchanged state answer
      → (more ≡ true
          → Ends (λ result _. HasEnded state result) (λ _. ⊥) (λ _. Unit {0}) (next state d fs))
      → Ends
          (λ result _. HasEnded state result)
          (λ _. ⊥)
          (λ _. Unit {0})
          (retried digest rkyv metadata_json state_codec more next answer d fs)
  continues more next (accepted meta state') d fs same again = tt
  continues false next (refused error state') d fs same again = same
  continues true next (refused error state') d fs same again =
      subst (λ s. Ends (λ result _. HasEnded state result) (λ _. ⊥) (λ _. Unit {0}) (next s d fs))
        (sym same) (again refl)

  loop-HasEnded :
      (fuel max_attempts attempt : ℕ) (clock : ℕ → ℕ) (d : Disk) (fs : List Fault)
      → max_attempts < 2 ^ 32 - 1
      → attempt ≤ max_attempts
      → max_attempts + 1 ≤ fuel + attempt
      → 1 ≤ fuel
      → Ends
          (λ result _. HasEnded state result)
          (λ _. ⊥)
          (λ _. Unit {0})
          (publish_with_retry digest rkyv metadata_json state_codec fuel settings max_attempts
            attempt clock state d fs)
  unfolding publish_with_retry
  loop-HasEnded zero max_attempts attempt clock d fs range within enough some_fuel =
      absurd (omega (arith, some_fuel))
  loop-HasEnded (suc fuel) max_attempts attempt clock d fs range within enough some_fuel =
      let counted : (attempt + 1) % 2 ^ 32 ≡ attempt + 1 = omega (arith, range, within) in
      rw counted (
        Ends-and_then (λ answer _. IsUnchanged state answer) (λ result _. HasEnded state result)
          (λ _. ⊥) (λ _. Unit {0})
          (retried digest rkyv metadata_json state_codec (leb (attempt + 1) max_attempts) (λ state'.
            publish_with_retry digest rkyv metadata_json state_codec fuel settings max_attempts
              (attempt + 1) clock state'))
          (publish_config digest rkyv metadata_json state_codec settings (clock fuel) state d fs)
          (publish_config-IsUnchanged (clock fuel) d fs)
          λ answer d' fs' same.
            continues (leb (attempt + 1) max_attempts) _ answer d' fs' same λ more.
              let left : attempt + 1 ≤ max_attempts = ground (arith, more) in
              loop-HasEnded fuel max_attempts (attempt + 1) clock d' fs' range left
                (omega (arith, enough)) (omega (arith, enough, left)))

  -- If `max_attempts` is below the largest `u32`, the loop ends with fuel for `max_attempts + 1`
  -- publications, unless the relay crashes, and where it has not published anything the memory is as
  -- it was.
  pub publish_with_retry-HasEnded :
      (max_attempts : ℕ) (clock : ℕ → ℕ) (d : Disk) (fs : List Fault)
      → max_attempts < 2 ^ 32 - 1
      → Ends
          (λ result _. HasEnded state result)
          (λ _. ⊥)
          (λ _. Unit {0})
          (publish_with_retry digest rkyv metadata_json state_codec
            (max_attempts + 1)
            settings
            max_attempts
            0
            clock
            state
            d
            fs)
  publish_with_retry-HasEnded max_attempts clock d fs range =
      loop-HasEnded (max_attempts + 1) max_attempts 0 clock d fs range (omega arith) (omega arith)
        (omega arith)
