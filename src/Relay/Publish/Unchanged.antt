-- ===== src/Relay/Publish/Unchanged.antt =====
-- The memory after a publication.
use mathlib.Core.Path.{subst}
use pavis.Prelude.{ℕ, sym, some, List, length, ◌≡◌, refl, ◌⊎◌, inl, inr, Bool-cases, Option-cases}
use pavis.Pvs.{Digest, Rkyv, PvsError, PvsResult, ok, err, verify}
use pavis.Relay.Disk.{Disk, Fault}
use pavis.Relay.Disk.Hoare.{Ends, Ends-map}
use pavis.Relay.Storage.{Json, ArtifactMetadata, RelayState}
use pavis.Relay.Runtime.{
  RelayError, RelayArtifact, RelayRuntimeState, exceeds, Answer, accepted, refused, publish,
  execute_plan,
}
use pavis.Relay.Publish.{metadata_of, next_version, announced, stored_as, publish_bytes}
use pavis.Relay.Publish.Written.{IsJson, stored_as-Outcome}

pub result_cases {ℓ} :
    {A : Type ℓ} (r : PvsResult A) → ((e : PvsError) × (r ≡ err e)) ⊎ ((a : A) × (r ≡ ok a))
result_cases (err e) = inl (e, refl)
result_cases (ok a) = inr (a, refl)

abbrev pub IsUnchanged : RelayRuntimeState → Answer ArtifactMetadata → Type 0
IsUnchanged state (accepted meta state') = Unit
IsUnchanged state (refused error state') = state' ≡ state

pub refused-IsUnchanged :
    (state : RelayRuntimeState) (answer : Answer ArtifactMetadata) (error : RelayError)
    → answer ≡ refused error state
    → IsUnchanged state answer
refused-IsUnchanged state answer error e = rw e refl

pub announced-IsUnchanged :
    (state : RelayRuntimeState) (meta : ArtifactMetadata) (stored : RelayArtifact)
    → IsUnchanged state (announced meta (publish meta.version stored meta.checksum state))
unfolding publish
announced-IsUnchanged state meta stored =
    elim (Bool-cases (exceeds (length stored.bytes) state.max_pvs_bytes)) [
      | inl e ↦ rw (e, publish) refl
      | inr e ↦ elim (Option-cases (execute_plan state.version meta.version)) [
        | inl plan ↦ rw (e, publish, plan) tt
        | inr (error, plan) ↦ rw (e, publish, plan) refl
      ]
    ]

module _ (digest : Digest) {Config : Type 0} (rkyv : Rkyv Config)
    (metadata_json : Json ArtifactMetadata) (state_codec : Json RelayState)
    (metadata_law : IsJson metadata_json) (state_law : IsJson state_codec)
    (state : RelayRuntimeState) (start : Disk) where
  stored-IsUnchanged :
      (metadata : ArtifactMetadata) (stored : RelayArtifact) (fs : List Fault)
      → Ends
          (λ answer _. IsUnchanged state answer)
          (λ _. ⊥)
          (λ _. Unit {0})
          (stored_as metadata_json state_codec metadata stored state start fs)
  stored-IsUnchanged metadata stored fs =
      let (meta_text, written, _) = metadata_law metadata in
      let (state_text, state_written, _) =
        state_law (record { current_version = metadata.version }) in
      Ends-map _ _ (λ _. ⊥) _ (λ _. Unit {0})
        (stored_as metadata_json state_codec metadata stored state start fs)
        (stored_as-Outcome metadata_json state_codec start metadata stored state meta_text
          state_text written state_written fs)
        (λ answer d outcome. elim outcome [
          | inl (new, e) ↦
              subst (IsUnchanged state) (sym e) (announced-IsUnchanged state metadata stored)
          | inr (any, (error, e)) ↦ refused-IsUnchanged state answer error e
        ])
        (λ _ _. tt)

  pub publish_bytes-IsUnchanged :
      (artifact : List ℕ) (now : ℕ) (fs : List Fault)
      → Ends
          (λ answer _. IsUnchanged state answer)
          (λ _. ⊥)
          (λ _. Unit {0})
          (publish_bytes digest rkyv metadata_json state_codec artifact now state start fs)
  unfolding publish_bytes
  publish_bytes-IsUnchanged artifact now fs =
      elim (Bool-cases (exceeds (length artifact) state.max_pvs_bytes)) [
        | inl large ↦ rw (large, publish_bytes) refl
        | inr small ↦ elim (result_cases (verify digest rkyv artifact)) [
          | inl (e, bad) ↦ rw (small, publish_bytes, bad) refl
          | inr (verified, good) ↦
              rw (small, publish_bytes, good)
                (stored-IsUnchanged (metadata_of digest (next_version state) artifact now)
                  (record { bytes = artifact; meta = some verified.header; generated_at = now }) fs)
        ]
      ]
