-- ===== src/Relay/Publish.antt =====
-- publish_bytes and publish_config of crates/pavis-relay/src/runtime.rs and publish_with_retry of
-- pipeline/artifact.rs. The lock of publications is held throughout.
pub mod Written
pub mod Unchanged
pub mod Crash
pub mod Durable
pub mod Retries
pub mod Failed
use pavis.Prelude.{
  ℕ, zero, suc, ◌+◌, ◌%◌, ◌^◌, Bool, Option, none, some, List, length, leb, if◌then◌else◌,
}
use pavis.Pvs.{Digest, Rkyv, PvsResult, ok, err, VerifiedPvs, verify, encode}
use pavis.Relay.Disk.{Io, return, ◌>>=◌, ◌>>◌, tried, try_remove}
use pavis.Relay.Storage.{
  Json, ArtifactMetadata, RelayState, history_artifact_path, history_metadata_path,
  append_to_history, promote_to_lkg, save_state,
}
use pavis.Relay.Runtime.{
  storage, policy, config, RelayArtifact, RelayRuntimeState, exceeds, checksum_for_bytes, counted,
  Answer, accepted, refused, publish,
}

abbrev pub metadata_of : Digest → ℕ → List ℕ → (now : ℕ) → ArtifactMetadata
metadata_of digest version artifact now = record {
  version = version;
  published_at = now;
  checksum = checksum_for_bytes digest artifact;
  size = length artifact;
}

abbrev pub next_version : RelayRuntimeState → ℕ
next_version state = (state.version + 1) % 2 ^ 64

abbrev pub announced : ArtifactMetadata → Answer Unit → Answer ArtifactMetadata
announced metadata (refused error state) = refused error state
announced metadata (accepted _ state) = accepted metadata (counted state)

module _ (metadata_json : Json ArtifactMetadata) (state_codec : Json RelayState) where
  -- The state is saved as well as it can be, and what was stored is published.
  abbrev pub saved :
      ArtifactMetadata → RelayArtifact → RelayRuntimeState → Io (Answer ArtifactMetadata)
  saved metadata stored state =
      tried (save_state state_codec (record { current_version = metadata.version })) >>= λ _.
      return (announced metadata (publish metadata.version stored metadata.checksum state))

  -- An entry of the history whose artifact could not be promoted is removed.
  abbrev pub promoted :
      ArtifactMetadata
      → RelayArtifact
      → RelayRuntimeState
      → Option {0} Unit
      → Io (Answer ArtifactMetadata)
  promoted metadata stored state (some _) = saved metadata stored state
  promoted metadata stored state none =
      try_remove (history_artifact_path metadata.version)
      >> try_remove (history_metadata_path metadata.version)
      >> return (refused storage state)

  abbrev pub appended :
      ArtifactMetadata
      → RelayArtifact
      → RelayRuntimeState
      → Option {0} Unit
      → Io (Answer ArtifactMetadata)
  appended metadata stored state none = return (refused storage state)
  appended metadata stored state (some _) =
      tried (promote_to_lkg metadata_json stored.bytes metadata) >>= promoted metadata stored state

  abbrev pub stored_as :
      ArtifactMetadata → RelayArtifact → RelayRuntimeState → Io (Answer ArtifactMetadata)
  stored_as metadata stored state =
      tried (append_to_history metadata_json metadata.version stored.bytes metadata)
      >>= appended metadata stored state

module _ (digest : Digest) {Config : Type 0} (rkyv : Rkyv Config)
    (metadata_json : Json ArtifactMetadata) (state_codec : Json RelayState) where
  unfoldable pub publish_bytes :
      List ℕ → (now : ℕ) → RelayRuntimeState → Io (Answer ArtifactMetadata)
  publish_bytes artifact now state =
      if exceeds (length artifact) state.max_pvs_bytes
      then return (refused policy state)
      else elim (verify digest rkyv artifact) [
        | err e ↦ return (refused (config e) state)
        | ok verified ↦
            let stored : RelayArtifact = record {
              bytes = artifact;
              meta = some verified.header;
              generated_at = now;
            } in
            stored_as metadata_json state_codec
              (metadata_of digest (next_version state) artifact now) stored state
      ]

  unfoldable pub publish_config :
      Config → (now : ℕ) → RelayRuntimeState → Io (Answer ArtifactMetadata)
  publish_config settings now state = elim (encode digest rkyv settings) [
    | err e ↦ return (refused (config e) state)
    | ok artifact ↦ publish_bytes artifact now state
  ]

  -- `attempt += 1` of a `u32`, in a release build.
  abbrev pub incremented : ℕ → ℕ
  incremented attempt = (attempt + 1) % 2 ^ 32

  -- The loop of `publish_with_retry` at its `attempt`-th turn, where `none` is the end of the fuel.
  -- `clock` has the time of each turn, by the fuel that is left.
  abbrev pub retried :
      Bool
      → (RelayRuntimeState → Io (Option (Answer ArtifactMetadata)))
      → Answer ArtifactMetadata
      → Io (Option (Answer ArtifactMetadata))
  retried more next (accepted metadata state) = return (some (accepted metadata state))
  retried more next (refused error state) =
      if more then next state else return (some (refused error state))

  unfoldable pub publish_with_retry :
      (fuel : ℕ)
      → Config
      → (max_attempts attempt : ℕ) → (clock : ℕ → ℕ) → RelayRuntimeState
      → Io (Option (Answer ArtifactMetadata))
  publish_with_retry zero settings max_attempts attempt clock state = return none
  publish_with_retry (suc fuel) settings max_attempts attempt clock state =
      publish_config settings (clock fuel) state
      >>= retried (leb (incremented attempt) max_attempts) (λ state'.
        publish_with_retry fuel settings max_attempts (incremented attempt) clock state')
