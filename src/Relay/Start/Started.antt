-- ===== src/Relay/Start/Started.antt =====
-- Starting from an artifact and its metadata on disk, where no call of the file system fails.
use pavis.Prelude.{
  ℕ, ◌≤◌, Bool, true, false, Option, none, some, List, [], length, ◌≡◌, refl, if◌then◌else◌, arith,
}
use pavis.Pvs.{header_size, Digest, ok, PvsHeader, verify_bytes}
use pavis.Pvs.Accepted.{accepted_is_intact}
use pavis.Relay.Disk.{Disk, Run, done, return, set_file, state_json}
use pavis.Relay.Disk.Hoare.{Ends}
use pavis.Relay.Storage.{
  Json, ArtifactMetadata, RelayState, load_lkg, repair_lkg, load_state, parsed_state, save_state,
  derive_state_from_lkg,
}
use pavis.Relay.Runtime.{RelayRuntimeState, exceeds, is_empty, checksum_for_bytes, new_with_options}
use pavis.Relay.Publish.Written.{IsJson}
use pavis.Relay.Start.{same_state, resumed, init_state}

-- The file `state.json` is missing or holds a state.
abbrev pub IsReadable : Json RelayState → Option (List ℕ) → Type 0
IsReadable state_codec none = Unit
IsReadable state_codec (some text) =
    (cached : RelayState) × (state_codec.from_slice text ≡ some cached)

module _ (metadata_json : Json ArtifactMetadata) where
  repair_done :
      (d : Disk) (artifact text : List ℕ)
      → d.artifact ≡ some artifact
      → d.metadata ≡ some text
      → repair_lkg metadata_json d [] ≡ done tt d []
  unfolding repair_lkg
  repair_done d artifact text a m = rw (repair_lkg, a, m) refl

  load_done :
      (d : Disk) (artifact text : List ℕ) (meta : ArtifactMetadata)
      → d.artifact ≡ some artifact
      → d.metadata ≡ some text
      → metadata_json.from_slice text ≡ some meta
      → load_lkg metadata_json d [] ≡ done (some (artifact, meta)) d []
  unfolding load_lkg
  load_done d artifact text meta a m j = rw (load_lkg, a, m, j) refl

module _ (state_codec : Json RelayState) (state_law : IsJson state_codec) where
  parsed_done :
      (d : Disk) (text : Option (List ℕ))
      → IsReadable state_codec text
      → (cached : Option RelayState) × (parsed_state state_codec text d [] ≡ done cached d [])
  parsed_done d none readable = (none, refl)
  parsed_done d (some text) (cached, e) = (some cached, rw e refl)

  load_state_done :
      (d : Disk)
      → IsReadable state_codec d.state
      → (cached : Option RelayState) × (load_state state_codec d [] ≡ done cached d [])
  unfolding load_state
  load_state_done d readable = parsed_done d d.state readable

  save_state_done :
      (state : RelayState) (d : Disk)
      → (d' : Disk) × (save_state state_codec state d [] ≡ done tt d' [])
  unfolding save_state
  save_state_done state d =
      let (text, written, _) = state_law state in
      (set_file state_json (some text) d, rw (save_state, written) refl)

  -- A check and perhaps a write of the state.
  kept_state_done :
      (same : Bool) (state : RelayState) (d : Disk)
      → (d' : Disk) × ((if same then return tt else save_state state_codec state) d []
          ≡ done tt d' [])
  kept_state_done true state d = (d, refl)
  kept_state_done false state d = save_state_done state d

full_of_bytes : (artifact : List ℕ) → header_size ≤ length artifact → is_empty artifact ≡ false
full_of_bytes artifact least = ground (arith, least)

module _ (digest : Digest) where
  -- A relay that was started with an artifact and its version.
  abbrev pub IsStarted : ℕ → List ℕ → RelayRuntimeState → Type 0
  IsStarted version artifact again =
      (again.version ≡ version)
      × (again.artifact.bytes ≡ artifact)
      × (again.artifact_checksum ≡ checksum_for_bytes digest artifact)
      × (again.ready ≡ true)

  abbrev pub Starts : ℕ → List ℕ → Run RelayRuntimeState → Type 0
  Starts version artifact run =
      Ends (λ again _. IsStarted version artifact again) (λ _. ⊥) (λ _. ⊥) run

  nonempty :
      (artifact : List ℕ) (read : PvsHeader × List ℕ)
      → verify_bytes digest artifact ≡ ok read
      → is_empty artifact ≡ false
  nonempty artifact (header, payload) e =
      full_of_bytes artifact (accepted_is_intact digest artifact payload header e).1

  new_with_options-Starts :
      (version : ℕ) (artifact : List ℕ) (limit now : ℕ) (d : Disk) (read : PvsHeader × List ℕ)
      → verify_bytes digest artifact ≡ ok read
      → Starts version artifact (new_with_options digest version artifact limit now d [])
  unfolding new_with_options
  new_with_options-Starts version artifact limit now d read e =
      let full = nonempty artifact read e in
      rw (full, new_with_options, e) (refl, refl, refl, rw full refl)

  module _ (metadata_json : Json ArtifactMetadata) (state_codec : Json RelayState)
      (state_law : IsJson state_codec) (limit now : ℕ) where
    resumed-Starts :
        (artifact : List ℕ) (derived : RelayState) (d : Disk) (read : PvsHeader × List ℕ)
        → verify_bytes digest artifact ≡ ok read
        → IsReadable state_codec d.state
        → Starts derived.current_version artifact
            (resumed digest metadata_json state_codec limit now artifact derived d [])
    resumed-Starts artifact derived d read e readable =
        let (cached, load) = load_state_done state_codec state_law d readable in
        let same = same_state digest metadata_json state_codec limit now cached derived in
        let (d', kept) = kept_state_done state_codec state_law same derived d in
        rw (load, kept)
          (new_with_options-Starts derived.current_version artifact limit now d' read e)

    pub init_state-Starts :
        (artifact text : List ℕ) (meta : ArtifactMetadata) (d : Disk) (read : PvsHeader × List ℕ)
        → verify_bytes digest artifact ≡ ok read
        → d.artifact ≡ some artifact
        → d.metadata ≡ some text
        → metadata_json.from_slice text ≡ some meta
        → IsReadable state_codec d.state
        → exceeds (length artifact) limit ≡ false
        → Starts meta.version artifact (init_state digest metadata_json state_codec limit now d [])
    unfolding init_state
    init_state-Starts artifact text meta d read e a m j readable small =
        rw
          (
            init_state,
            repair_done metadata_json d artifact text a m,
            load_done metadata_json d artifact text meta a m j,
            small,
          )
          (resumed-Starts artifact (derive_state_from_lkg meta) d read e readable)
