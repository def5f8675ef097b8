-- ===== src/Relay/Publish/Failed.antt =====
-- A publication of which only the metadata cannot be written.
use pavis.Prelude.{ℕ, false, some, List, [], ◌∷◌, length, ◌≡◌, refl}
use pavis.Pvs.{Digest, Rkyv, ok, VerifiedPvs, verify}
use pavis.Relay.Disk.{Disk, Fault, works, fails, done}
use pavis.Relay.Disk.Hoare.{Ends}
use pavis.Relay.Storage.{Json, ArtifactMetadata, RelayState, append_to_history, promote_to_lkg}
use pavis.Relay.Runtime.{storage, RelayRuntimeState, exceeds, refused}
use pavis.Relay.Publish.{metadata_of, next_version, publish_bytes}
use pavis.Relay.Publish.Written.{IsJson}
use pavis.Relay.Publish.Crash.{loaded_lkg, loaded_lkg_lem}

-- The second file of the last known good artifact is the seventh call of the file system.
abbrev pub metadata_fails : List Fault
metadata_fails = works ∷ works ∷ works ∷ works ∷ works ∷ works ∷ fails ∷ []

-- Where the artifact is acceptable and the relay has an artifact, but the metadata of the new one
-- cannot be written, the publication is refused and the memory stays, and yet repairing and loading
-- the last known good files, with which a restart begins, gives the refused artifact, with the
-- metadata and so the version of the one before.
pub refused_is_loaded :
    (digest : Digest) {Config : Type 0} (rkyv : Rkyv Config) (metadata_json : Json ArtifactMetadata)
    (state_codec : Json RelayState)
    → IsJson metadata_json
    → (start : Disk) (old old_text artifact : List ℕ) (old_meta : ArtifactMetadata) (now : ℕ)
      (state : RelayRuntimeState) (verified : VerifiedPvs)
    → start.artifact ≡ some old
    → start.metadata ≡ some old_text
    → metadata_json.from_slice old_text ≡ some old_meta
    → exceeds (length artifact) state.max_pvs_bytes ≡ false
    → verify digest rkyv artifact ≡ ok verified
    → Ends
        (λ answer d.
          (answer ≡ refused storage state)
          × (loaded_lkg metadata_json d ≡ done (some (artifact, old_meta)) d []))
        (λ _. ⊥)
        (λ _. ⊥)
        (publish_bytes digest rkyv metadata_json state_codec artifact now state start
          metadata_fails)
unfolding publish_bytes append_to_history promote_to_lkg
refused_is_loaded digest rkyv metadata_json state_codec law start old old_text artifact old_meta now
      state verified a m j small good =
    let (text, written, read) = law (metadata_of digest (next_version state) artifact now) in
    rw (small, publish_bytes, good, written)
      (rw written (refl, loaded_lkg_lem metadata_json _ artifact old_text old_meta refl m j))
