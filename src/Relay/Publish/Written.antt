-- ===== src/Relay/Publish/Written.antt =====
-- What a publication has written when it ends, wherever it ends.
use pavis.Prelude.{ℕ, Option, none, some, List, ◌≡◌, refl, ◌⊎◌, inl, inr}
use pavis.Relay.Disk.{lkg_artifact, lkg_metadata, state_json, Disk, Fault, set_file, return}
use pavis.Relay.Disk.Hoare.{
  Ends, Ends-weaken, tried_then, step_then, write_then, try_remove_then, step_last,
}
use pavis.Relay.Storage.{
  Json, ArtifactMetadata, RelayState, history_artifact_path, history_metadata_path,
  append_to_history, promote_to_lkg, save_state,
}
use pavis.Relay.Runtime.{
  RelayError, storage, RelayArtifact, RelayRuntimeState, Answer, refused, publish,
}
use pavis.Relay.Publish.{announced, saved, promoted, appended, stored_as}

-- What is written is read again as it was.
abbrev pub IsJson : {A : Type 0} → Json A → Type 0
IsJson {A = A} json =
    (a : A) → (text : List ℕ) × (json.to_vec a ≡ some text) × (json.from_slice text ≡ some a)

-- The files that a restart reads, `state.json` last.
abbrev pub Reads : Option (List ℕ) → Option (List ℕ) → Option (List ℕ) → Disk → Type 0
Reads artifact metadata state d =
    (d.artifact ≡ artifact) × (d.metadata ≡ metadata) × (d.state ≡ state)

-- The files before a publication, in its middle, and at its end.
module _ (start : Disk) (artifact meta_json state_text : List ℕ) where
  abbrev pub IsOld : Disk → Type 0
  IsOld = Reads start.artifact start.metadata start.state

  abbrev pub IsMixed : Disk → Type 0
  IsMixed = Reads (some artifact) start.metadata start.state

  abbrev pub IsNew : Disk → Type 0
  IsNew d =
      ◌⊎◌ {0, 0} (Reads (some artifact) (some meta_json) start.state d)
        (Reads (some artifact) (some meta_json) (some state_text) d)

  abbrev pub IsAny : Disk → Type 0
  IsAny d = ◌⊎◌ {0, 0} (IsOld d) (◌⊎◌ {0, 0} (IsMixed d) (IsNew d))

  pub pair : (d : Disk) → IsNew d → (d.artifact ≡ some artifact) × (d.metadata ≡ some meta_json)
  pair d (inl (a, m, s)) = (a, m)
  pair d (inr (a, m, s)) = (a, m)

module _ (metadata_json : Json ArtifactMetadata) (state_codec : Json RelayState) (start : Disk)
    (metadata : ArtifactMetadata) (stored : RelayArtifact) (state : RelayRuntimeState)
    (meta_json state_text : List ℕ) (meta_written : metadata_json.to_vec metadata ≡ some meta_json)
    (state_written : state_codec.to_vec (record { current_version = metadata.version })
      ≡ some state_text) where
  abbrev Old : Disk → Type 0
  Old = IsOld start stored.bytes meta_json state_text

  abbrev New : Disk → Type 0
  New = IsNew start stored.bytes meta_json state_text

  abbrev Any : Disk → Type 0
  Any = IsAny start stored.bytes meta_json state_text

  -- Either everything is written and published, or there is an error and nothing in memory changed.
  abbrev pub Outcome : Answer ArtifactMetadata → Disk → Type 0
  Outcome answer d =
      ◌⊎◌ {0, 0}
        (New d
          × (answer ≡ announced metadata (publish metadata.version stored metadata.checksum state)))
        (Any d × ((error : RelayError) × (answer ≡ refused error state)))

  abbrev Never : Disk → Type 0
  Never d = ⊥

  append-Ends :
      (d : Disk) (fs : List Fault)
      → Old d
      → Ends
          (λ _ d'. Old d')
          Old
          Old
          (append_to_history metadata_json metadata.version stored.bytes metadata d fs)
  unfolding append_to_history
  append-Ends d fs old =
      let Q : Unit {0} → Disk → Type 0 = λ _ d'. Old d' in
      step_then Q Old Old _ d fs old old λ fs1.
        write_then Q Old Old _ (history_artifact_path metadata.version) stored.bytes d fs1 old old
          λ fs2. rw meta_written (
            write_then Q Old Old _ (history_metadata_path metadata.version) meta_json
              (set_file (history_artifact_path metadata.version) (some stored.bytes) d) fs2 old old
              λ fs3. step_last Old Old Old _ fs3 old old old)

  promote-Ends :
      (d : Disk) (fs : List Fault)
      → Old d
      → Ends (λ _ d'. New d') Any Any (promote_to_lkg metadata_json stored.bytes metadata d fs)
  unfolding promote_to_lkg
  promote-Ends d fs old =
      let (a, m, s) = old in
      let Q : Unit {0} → Disk → Type 0 = λ _ d'. New d' in
      let mixed : Any (set_file lkg_artifact (some stored.bytes) d) = inr (inl (refl, m, s)) in
      let renewed = inl (refl, refl, s) in
      step_then Q Any Any _ d fs (inl old) (inl old) λ fs1.
        write_then Q Any Any _ lkg_artifact stored.bytes d fs1 (inl old) (inl old) λ fs2.
          rw meta_written (
            write_then Q Any Any _ lkg_metadata meta_json
              (set_file lkg_artifact (some stored.bytes) d) fs2 mixed mixed
              λ fs3. step_last New Any Any _ fs3 renewed (inr (inr renewed)) (inr (inr renewed)))

  abbrev Afterwards : Option {0} Unit → Disk → Type 0
  Afterwards (some _) d = New d
  Afterwards none d = Any d

  save-Ends :
      (d : Disk) (fs : List Fault)
      → New d
      → Ends
          (λ _ d'. New d')
          New
          New
          (save_state state_codec (record { current_version = metadata.version }) d fs)
  unfolding save_state
  save-Ends d fs new =
      let Q : Unit {0} → Disk → Type 0 = λ _ d'. New d' in
      let (a, m) = pair start stored.bytes meta_json state_text d new in
      rw state_written (
        write_then Q New New _ state_json state_text d fs new new λ fs1.
          step_last New New New _ fs1 (inr (a, m, refl)) (inr (a, m, refl)) (inr (a, m, refl)))

  saved-Outcome :
      (d : Disk) (fs : List Fault)
      → New d
      → Ends Outcome Never Any (saved metadata_json state_codec metadata stored state d fs)
  saved-Outcome d fs new =
      let N : Unit {0} → Disk → Type 0 = λ _ d'. New d' in
      let written : Ends N New Any
          (save_state state_codec (record { current_version = metadata.version }) d fs) =
        Ends-weaken N New New Any _ (save-Ends d fs new) λ _ k. inr (inr k) in
      tried_then N Outcome New Never Any
        (λ _. return (announced metadata (publish metadata.version stored metadata.checksum state)))
        (save_state state_codec (record { current_version = metadata.version }) d fs) written
        (λ _ d' fs' new'. inl (new', refl)) (λ d' fs' new'. inl (new', refl))

  promoted-Outcome :
      (result : Option {0} Unit) (d : Disk) (fs : List Fault)
      → Afterwards result d
      → Ends Outcome Never Any
          (promoted metadata_json state_codec metadata stored state result d fs)
  promoted-Outcome (some _) d fs new = saved-Outcome d fs new
  promoted-Outcome none d fs any =
      let first = history_artifact_path metadata.version in
      let second = history_metadata_path metadata.version in
      let end : (d' : Disk) → Any d' → Outcome (refused storage state) d' =
        λ d' h. inr (h, (storage, refl)) in
      try_remove_then Outcome Never Any _ first d fs any
        (λ fs1.
          try_remove_then Outcome Never Any _ second d fs1 any (λ _. end d any)
            (λ _. end (set_file second none d) any))
        (λ fs1.
          try_remove_then Outcome Never Any _ second (set_file first none d) fs1 any
            (λ _. end (set_file first none d) any)
            (λ _. end (set_file second none (set_file first none d)) any))

  appended-Outcome :
      (result : Option {0} Unit) (d : Disk) (fs : List Fault)
      → Old d
      → Ends Outcome Never Any
          (appended metadata_json state_codec metadata stored state result d fs)
  appended-Outcome none d fs old = inr (inl old, (storage, refl))
  appended-Outcome (some _) d fs old =
      tried_then (λ _ d'. New d') Outcome Any Never Any
        (promoted metadata_json state_codec metadata stored state)
        (promote_to_lkg metadata_json stored.bytes metadata d fs) (promote-Ends d fs old)
        (λ a d' fs'. promoted-Outcome (some a) d' fs') (λ d' fs'. promoted-Outcome none d' fs')

  -- A publication never ends in an error of its own, and a crash leaves one of the three states.
  pub stored_as-Outcome :
      (fs : List Fault)
      → Ends Outcome Never Any (stored_as metadata_json state_codec metadata stored state start fs)
  stored_as-Outcome fs =
      let old : Old start = (refl, refl, refl) in
      let O : Unit {0} → Disk → Type 0 = λ _ d'. Old d' in
      tried_then O Outcome Old Never Any (appended metadata_json state_codec metadata stored state)
        (append_to_history metadata_json metadata.version stored.bytes metadata start fs)
        (Ends-weaken O Old Old Any _ (append-Ends start fs old) λ _ k. inl k)
        (λ a d' fs'. appended-Outcome (some a) d' fs') (λ d' fs'. appended-Outcome none d' fs')
