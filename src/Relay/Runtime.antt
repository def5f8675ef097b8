-- ===== src/Relay/Runtime.antt =====
-- crates/pavis-relay/src/runtime.rs: what the relay holds in memory, and publishing to it. Of the
-- metrics only the count of publications is kept.
use pavis.Prelude.{
  ℕ, ◌+◌, ◌%◌, ◌^◌, Bool, true, not, ◌&&◌, Option, none, some, List, [], ◌∷◌, ◌++◌, length, ltb,
  leb, ◌==◌, if◌then◌else◌,
}
use pavis.Prelude.Text.{Text, bytes, text_eq}
use pavis.Pvs.{Digest, PvsError, ok, err, PvsHeader, verify_bytes, compute_checksum, to_hex}
use pavis.Relay.Disk.{Io, return, fail}

-- The errors that these operations return.
pub data RelayError : Type 0 where
  version_monotonicity : (current proposed : ℕ) → RelayError
  storage policy : RelayError
  config : PvsError → RelayError

pub record RelayArtifact : Type 0 where
  pub bytes : List ℕ
  pub meta : Option PvsHeader
  pub generated_at : ℕ

-- The snapshot and the other fields of `RelayRuntimeState`; `wakes` counts the calls of
-- `notify_waiters`.
pub record RelayRuntimeState : Type 0 where
  pub version : ℕ
  pub artifact : RelayArtifact
  pub artifact_checksum : Text
  pub history : List (ℕ × RelayArtifact)
  pub wakes : ℕ
  pub ready : Bool
  pub publish_ok : ℕ
  pub max_pvs_bytes : ℕ

unfoldable pub execute_plan : (current_version proposed_version : ℕ) → Option RelayError
execute_plan current_version proposed_version =
    if leb proposed_version current_version
    then some (version_monotonicity current_version proposed_version)
    else none

abbrev pub exceeds : ℕ → (limit : ℕ) → Bool
exceeds size limit = ltb 0 limit && ltb limit size

abbrev pub is_empty : List ℕ → Bool
is_empty bytes = length bytes == 0

-- The snapshot is replaced under its lock; waiting clients are woken when the checksum changed.
abbrev pub replaced : ℕ → RelayArtifact → (checksum : Text) → RelayRuntimeState → RelayRuntimeState
replaced proposed_version artifact checksum state =
    let etag_changed = not (text_eq state.artifact_checksum checksum) in
    record {
      version = proposed_version;
      artifact = artifact;
      artifact_checksum = checksum;
      history = (proposed_version, artifact) ∷ state.history;
      wakes = if etag_changed then state.wakes + 1 else state.wakes;
      ready = true;
      publish_ok = state.publish_ok;
      max_pvs_bytes = state.max_pvs_bytes;
    }

abbrev pub counted : RelayRuntimeState → RelayRuntimeState
counted state = record {
  version = state.version;
  artifact = state.artifact;
  artifact_checksum = state.artifact_checksum;
  history = state.history;
  wakes = state.wakes;
  ready = state.ready;
  publish_ok = state.publish_ok + 1;
  max_pvs_bytes = state.max_pvs_bytes;
}

-- What an operation returns, with the state after it.
pub data Answer (A : Type 0) : Type 0 where
  accepted : A → RelayRuntimeState → Answer A
  refused : RelayError → RelayRuntimeState → Answer A

unfoldable pub publish : ℕ → RelayArtifact → (checksum : Text) → RelayRuntimeState → Answer Unit
publish proposed_version artifact checksum state =
    if exceeds (length artifact.bytes) state.max_pvs_bytes
    then refused policy state
    else elim (execute_plan state.version proposed_version) [
      | some error ↦ refused error state
      | none ↦ accepted tt (replaced proposed_version artifact checksum state)
    ]

module _ (digest : Digest) where
  unfoldable pub checksum_for_bytes : List ℕ → Text
  checksum_for_bytes artifact = bytes "sha256:" ++ to_hex (compute_checksum digest artifact)

  abbrev pub started : ℕ → List ℕ → (limit now : ℕ) → Option PvsHeader → Text → RelayRuntimeState
  started version artifact limit now meta checksum =
      let stored : RelayArtifact = record { bytes = artifact; meta = meta; generated_at = now } in
      record {
        version = version;
        artifact = stored;
        artifact_checksum = checksum;
        history = (version, stored) ∷ [];
        wakes = 0;
        ready = not (is_empty artifact);
        publish_ok = 0;
        max_pvs_bytes = limit;
      }

  -- `inspect` is `verify_bytes`.
  unfoldable pub new_with_options : ℕ → List ℕ → (limit now : ℕ) → Io RelayRuntimeState
  new_with_options version artifact limit now =
      if is_empty artifact
      then return (started version artifact limit now none [])
      else elim (verify_bytes digest artifact) [
        | err e ↦ fail
        | ok (header, payload) ↦
            return (started version artifact limit now (some header) (checksum_for_bytes artifact))
      ]

  unfoldable pub publish_auto : List ℕ → (now : ℕ) → RelayRuntimeState → Answer ℕ
  publish_auto artifact now state =
      if exceeds (length artifact) state.max_pvs_bytes
      then refused policy state
      else elim (verify_bytes digest artifact) [
        | err e ↦ refused (config e) state
        | ok (header, payload) ↦
            let proposed_version = (state.version + 1) % 2 ^ 64 in
            let stored : RelayArtifact = record {
              bytes = artifact;
              meta = some header;
              generated_at = now;
            } in
            accepted proposed_version
              (counted (replaced proposed_version stored (checksum_for_bytes artifact) state))
      ]
