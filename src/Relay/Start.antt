-- ===== src/Relay/Start.antt =====
-- init_state of crates/pavis-relay/src/app.rs: what the relay starts from. Reading the command line
-- and the configuration of the relay, and the warnings, are left out.
pub mod Started
use pavis.Prelude.{
  ℕ, ◌<◌, Bool, true, false, Option, none, some, List, [], length, ◌==◌, if◌then◌else◌,
}
use pavis.Pvs.{Digest}
use pavis.Relay.Disk.{Io, return, fail, ◌>>=◌, ◌>>◌}
use pavis.Relay.Storage.{
  Json, ArtifactMetadata, RelayState, load_lkg, repair_lkg, load_state, save_state,
  derive_state_from_lkg, find_orphaned_versions, find_corrupt_versions,
}
use pavis.Relay.Runtime.{RelayRuntimeState, exceeds, new_with_options}

module _ (digest : Digest) (metadata_json : Json ArtifactMetadata) (state_codec : Json RelayState)
    (max_pvs_bytes now : ℕ) where
  abbrev pub same_state : Option RelayState → RelayState → Bool
  same_state none derived = false
  same_state (some cached) derived = cached.current_version == derived.current_version

  -- What follows the loading of the artifact.
  abbrev pub resumed : List ℕ → RelayState → Io RelayRuntimeState
  resumed artifact derived = load_state state_codec >>= λ cached.
      (if same_state cached derived then return tt else save_state state_codec derived)
      >> find_orphaned_versions derived.current_version
      >> find_corrupt_versions
      >> new_with_options digest derived.current_version artifact max_pvs_bytes now

  abbrev pub continued : Option (List ℕ × ArtifactMetadata) → Io RelayRuntimeState
  continued none = resumed [] (record { current_version = 0 })
  continued (some (artifact, meta)) =
      if exceeds (length artifact) max_pvs_bytes
      then fail
      else resumed artifact (derive_state_from_lkg meta)

  unfoldable pub init_state : Io RelayRuntimeState
  init_state = repair_lkg metadata_json >> load_lkg metadata_json >>= continued
