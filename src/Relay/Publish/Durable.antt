-- ===== src/Relay/Publish/Durable.antt =====
-- Starting the relay after a publication that succeeded.
use pavis.Prelude.{ℕ, ◌<◌, List, [], ◌≡◌}
use pavis.Pvs.{Digest, Rkyv}
use pavis.Relay.Disk.{Disk}
use pavis.Relay.Storage.{Json, ArtifactMetadata, RelayState}
use pavis.Relay.Runtime.{RelayRuntimeState, Answer, accepted, refused}
use pavis.Relay.Publish.{metadata_of, next_version}
use pavis.Relay.Publish.Written.{IsJson}
use pavis.Relay.Start.{init_state}
use pavis.Relay.Start.Started.{IsReadable, Starts}

module _ (digest : Digest) {Config : Type 0} (rkyv : Rkyv Config)
    (metadata_json : Json ArtifactMetadata) (state_codec : Json RelayState)
    (metadata_law : IsJson metadata_json) (state_law : IsJson state_codec) (start : Disk)
    (artifact : List ℕ) (now later : ℕ) (state : RelayRuntimeState)
    (readable : IsReadable state_codec start.state) where
  abbrev metadata : ArtifactMetadata
  metadata = metadata_of digest (next_version state) artifact now

  -- The version is a higher one, and a relay that starts from the disk has it and the artifact.
  abbrev pub IsKept : Answer ArtifactMetadata → Disk → Type 0
  IsKept (refused error state') d = Unit
  IsKept (accepted meta state') d =
      (meta ≡ metadata)
      × (state'.artifact.bytes ≡ artifact)
      × (state.version < state'.version)
      × Starts digest state'.version artifact
          (init_state digest metadata_json state_codec state.max_pvs_bytes later d [])
