-- ===== src/Relay/Publish/Crash.antt =====
-- Starting the relay after a publication that succeeded, failed or crashed.
use mathlib.Core.Path.{subst}
use pavis.Prelude.{
  ℕ, sym, false, Option, some, List, [], length, ◌≡◌, refl, ◌⊎◌, inl, inr, ◌∙◌, Bool-cases,
}
use pavis.Pvs.{Digest, Rkyv, PvsHeader, verify, verify_bytes, ok}
use pavis.Pvs.Accepted.{verify-verify_bytes}
use pavis.Relay.Disk.{Disk, Fault, Run, done, ◌>>◌}
use pavis.Relay.Disk.Hoare.{Ends, Ends-map}
use pavis.Relay.Storage.{Json, ArtifactMetadata, RelayState, load_lkg, repair_lkg}
use pavis.Relay.Runtime.{RelayArtifact, RelayRuntimeState, exceeds}
use pavis.Relay.Publish.{metadata_of, next_version, stored_as, publish_bytes}
use pavis.Relay.Publish.Unchanged.{
  result_cases, IsUnchanged, refused-IsUnchanged, announced-IsUnchanged,
}
use pavis.Relay.Publish.Written.{IsJson, Reads, IsAny, IsNew, pair, stored_as-Outcome}
use pavis.Relay.Start.{init_state}
use pavis.Relay.Start.Started.{IsReadable, Starts, init_state-Starts}

module _ (metadata_json : Json ArtifactMetadata) where
  -- What init_state repairs and loads before all else, where no call of the file system fails.
  abbrev pub loaded_lkg : Disk → Run (Option (List ℕ × ArtifactMetadata))
  loaded_lkg d = (repair_lkg metadata_json >> load_lkg metadata_json) d []

  pub loaded_lkg_lem :
      (d : Disk) (artifact text : List ℕ) (meta : ArtifactMetadata)
      → d.artifact ≡ some artifact
      → d.metadata ≡ some text
      → metadata_json.from_slice text ≡ some meta
      → loaded_lkg d ≡ done (some (artifact, meta)) d []
  unfolding repair_lkg load_lkg
  loaded_lkg_lem d artifact text meta a m j = rw (repair_lkg, load_lkg, a, m, j) refl

-- A loaded pair is the old one, the new artifact with the old metadata, or the new one.
abbrev pub IsOffered :
    (old new : List ℕ) (old_meta new_meta : ArtifactMetadata) → List ℕ × ArtifactMetadata → Type 0
IsOffered old new old_meta new_meta (artifact, meta) =
    ◌⊎◌ {0, 0} ((artifact ≡ old) × (meta ≡ old_meta))
      (◌⊎◌ {0, 0} ((artifact ≡ new) × (meta ≡ old_meta)) ((artifact ≡ new) × (meta ≡ new_meta)))

module _ (digest : Digest) {Config : Type 0} (rkyv : Rkyv Config)
    (metadata_json : Json ArtifactMetadata) (state_codec : Json RelayState)
    (metadata_law : IsJson metadata_json) (state_law : IsJson state_codec) where
  -- The relay starts again, with the version and the artifact of such a pair.
  abbrev pub IsRecovered :
      (old new : List ℕ) (old_meta new_meta : ArtifactMetadata) (limit later : ℕ) → Disk → Type 0
  IsRecovered old new old_meta new_meta limit later d =
      (pair : List ℕ × ArtifactMetadata) × IsOffered old new old_meta new_meta pair
      × (loaded_lkg metadata_json d ≡ done (some pair) d [])
      × Starts digest pair.1.version pair.0
          (init_state digest metadata_json state_codec limit later d [])

  module _ (start : Disk) (old old_text artifact : List ℕ) (old_meta : ArtifactMetadata)
      (now later : ℕ) (state : RelayRuntimeState) (old_read : PvsHeader × List ℕ)
      (has_artifact : start.artifact ≡ some old) (has_metadata : start.metadata ≡ some old_text)
      (is_metadata : metadata_json.from_slice old_text ≡ some old_meta)
      (is_artifact : verify_bytes digest old ≡ ok old_read)
      (fits : exceeds (length old) state.max_pvs_bytes ≡ false)
      (readable : IsReadable state_codec start.state) where
    abbrev metadata : ArtifactMetadata
    metadata = metadata_of digest (next_version state) artifact now

    abbrev Recovered : Disk → Type 0
    Recovered = IsRecovered old artifact old_meta metadata state.max_pvs_bytes later

    -- A disk with a verified artifact, readable metadata and a readable state.
    from_files :
        (d : Disk) (bytes text : List ℕ) (meta : ArtifactMetadata) (read : PvsHeader × List ℕ)
        → IsOffered old artifact old_meta metadata (bytes, meta)
        → d.artifact ≡ some bytes
        → d.metadata ≡ some text
        → metadata_json.from_slice text ≡ some meta
        → verify_bytes digest bytes ≡ ok read
        → exceeds (length bytes) state.max_pvs_bytes ≡ false
        → IsReadable state_codec d.state
        → Recovered d
    from_files d bytes text meta read offered a m j valid small legible = (
      (bytes, meta),
      offered,
      loaded_lkg_lem metadata_json d bytes text meta a m j,
      init_state-Starts digest metadata_json state_codec state_law state.max_pvs_bytes later bytes
          text meta d read valid a m j legible small,
    )

    same_state_file : (d : Disk) → d.state ≡ start.state → IsReadable state_codec d.state
    same_state_file d s = subst (IsReadable state_codec) (sym s) readable

    old-Recovered : (d : Disk) → Reads start.artifact start.metadata start.state d → Recovered d
    old-Recovered d (a, m, s) =
        from_files d old old_text old_meta old_read (inl (refl, refl)) (a ∙ has_artifact)
          (m ∙ has_metadata) is_metadata is_artifact fits (same_state_file d s)

    new-IsReadable :
        (meta_text state_text : List ℕ) (d : Disk)
        → state_codec.from_slice state_text ≡ some (record { current_version = metadata.version })
        → IsNew start artifact meta_text state_text d
        → IsReadable state_codec d.state
    new-IsReadable meta_text state_text d read (inl (a, m, s)) = same_state_file d s
    new-IsReadable meta_text state_text d read (inr (a, m, s)) =
        subst (IsReadable state_codec) (sym s) (record { current_version = metadata.version }, read)

    module _ (read : PvsHeader × List ℕ) (valid : verify_bytes digest artifact ≡ ok read)
        (small : exceeds (length artifact) state.max_pvs_bytes ≡ false) where
      any-Recovered :
          (meta_text state_text : List ℕ)
          → metadata_json.from_slice meta_text ≡ some metadata
          → state_codec.from_slice state_text ≡ some (record { current_version = metadata.version })
          → (d : Disk) → IsAny start artifact meta_text state_text d
          → Recovered d
      any-Recovered meta_text state_text new_read state_read d (inl was) = old-Recovered d was
      any-Recovered meta_text state_text new_read state_read d (inr (inl (a, m, s))) =
          from_files d artifact old_text old_meta read (inr (inl (refl, refl))) a (m ∙ has_metadata)
            is_metadata valid small (same_state_file d s)
      any-Recovered meta_text state_text new_read state_read d (inr (inr new)) =
          let (a, m) = pair start artifact meta_text state_text d new in
          from_files d artifact meta_text metadata read (inr (inr (refl, refl))) a m new_read valid
            small (new-IsReadable meta_text state_text d state_read new)

      outcome_lem :
          (header : Option PvsHeader) (fs : List Fault)
          → let stored : RelayArtifact = record {
            bytes = artifact;
            meta = header;
            generated_at = now;
          } in
            Ends
              (λ answer d. Recovered d × IsUnchanged state answer)
              (λ _. ⊥)
              Recovered
              (stored_as metadata_json state_codec metadata stored state start fs)
      outcome_lem header fs =
          let stored : RelayArtifact = record {
            bytes = artifact;
            meta = header;
            generated_at = now;
          } in
          let (meta_text, written, meta_read) = metadata_law metadata in
          let (state_text, state_written, state_read) =
            state_law (record { current_version = metadata.version }) in
          let any = any-Recovered meta_text state_text meta_read state_read in
          Ends-map _ _ (λ _. ⊥) _ Recovered
            (stored_as metadata_json state_codec metadata stored state start fs)
            (stored_as-Outcome metadata_json state_codec start metadata stored state meta_text
              state_text written state_written fs)
            (λ answer d outcome. elim outcome [
              | inl (new, e) ↦ (
                any d (inr (inr new)),
                subst (IsUnchanged state) (sym e) (announced-IsUnchanged state metadata stored),
              )
              | inr (kept, (error, e)) ↦ (any d kept, refused-IsUnchanged state answer error e)
            ])
            any

    -- If the relay's disk has a valid artifact within the limit, with metadata and a state that can be
    -- read, then after a publication that succeeded, failed or crashed at any step the relay starts
    -- again, where no call of the file system fails then, with the version and the artifact of one of
    -- these pairs: the artifact and metadata before, those of the publication, or its artifact with
    -- the metadata before. What a publication refuses leaves the memory as it was.
    pub publish_bytes-IsRecovered :
        (fs : List Fault)
        → Ends
            (λ answer d. Recovered d × IsUnchanged state answer)
            (λ _. ⊥)
            Recovered
            (publish_bytes digest rkyv metadata_json state_codec artifact now state start fs)
    unfolding publish_bytes
    publish_bytes-IsRecovered fs =
        let kept = old-Recovered start (refl, refl, refl) in
        elim (Bool-cases (exceeds (length artifact) state.max_pvs_bytes)) [
          | inl large ↦ rw (large, publish_bytes) (kept, refl)
          | inr small ↦ elim (result_cases (verify digest rkyv artifact)) [
            | inl (e, bad) ↦ rw (small, publish_bytes, bad) (kept, refl)
            | inr (verified, good) ↦
                let (read, valid) = verify-verify_bytes digest rkyv artifact verified good in
                rw (small, publish_bytes, good)
                  (outcome_lem read valid small (some verified.header) fs)
          ]
        ]
