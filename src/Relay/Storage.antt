-- ===== src/Relay/Storage.antt =====
-- crates/pavis-relay/src/storage/history.rs, lkg.rs, metadata.rs and state.rs: the history of
-- artifacts, the last known good one with its metadata, and the cached state. The JSON of the
-- metadata and of the state (`serde_json`) is a parameter; the directories lie under the root.
use pavis.Prelude.{
  ℕ, not, Option, none, some, List, [], ◌∷◌, ◌++◌, ltb, leb, ◌==◌, any, retain, if◌then◌else◌,
}
use pavis.Prelude.Text.{Text, bytes}
use pavis.Relay.Disk.{
  File, lkg_artifact, lkg_metadata, state_json, history, Io, done, return, fail, ◌>>=◌, ◌>>◌, tried,
  ok_or, step, write_atomic, read_if_present, try_remove,
}
use pavis.Relay.Names.{version_artifact_name, version_metadata_name, parse_version}

-- `serde_json::to_vec_pretty` and `serde_json::from_slice`.
pub record Json (A : Type 0) : Type 0 where
  pub to_vec : A → Option (List ℕ)
  pub from_slice : List ℕ → Option A

pub record ArtifactMetadata : Type 0 where
  pub version : ℕ
  pub published_at : ℕ
  pub checksum : Text
  pub size : ℕ

pub record RelayState : Type 0 where
  pub current_version : ℕ

abbrev pub history_artifact_path : ℕ → File
history_artifact_path version = history (version_artifact_name version)

abbrev pub history_metadata_path : ℕ → File
history_metadata_path version = history (version_metadata_name version)

-- The versions that the names of a directory hold; one that occurs twice counts once.
abbrev pub versions_of : (suffix : Text) → List (Text × List ℕ) → List ℕ
versions_of suffix [] = []
versions_of suffix ((name, contents) ∷ entries) =
    let rest = versions_of suffix entries in
    elim (parse_version name suffix) [
      | none ↦ rest
      | some version ↦ if any (λ v. v == version) rest then rest else version ∷ rest
    ]

abbrev pub scan_history_sets : Io (List ℕ × List ℕ)
scan_history_sets = step >> (λ d fs.
    done (versions_of (bytes ".pvs") d.entries, versions_of (bytes ".meta.json") d.entries) d fs)

abbrev inserted : ℕ → List ℕ → List ℕ
inserted v [] = v ∷ []
inserted v (w ∷ ws) = let rest = inserted v ws in if leb v w then v ∷ w ∷ ws else w ∷ rest

abbrev pub sort_unstable : List ℕ → List ℕ
sort_unstable [] = []
sort_unstable (v ∷ vs) = inserted v (sort_unstable vs)

abbrev pub list_history_versions : Io (List ℕ)
list_history_versions = scan_history_sets >>= λ sets.
    let (artifact_versions, meta_versions) = sets in
    return (sort_unstable (retain (λ v. any (λ w. w == v) meta_versions) artifact_versions))

abbrev pub find_orphaned_versions : ℕ → Io (List ℕ)
find_orphaned_versions current_version = list_history_versions >>= λ versions.
    return (retain (λ version. ltb current_version version) versions)

abbrev pub find_corrupt_versions : Io (List ℕ)
find_corrupt_versions = scan_history_sets >>= λ sets.
    let (artifact_versions, meta_versions) = sets in
    return (
      sort_unstable (
        retain (λ v. not (any (λ w. w == v) meta_versions)) artifact_versions
        ++ retain (λ v. not (any (λ w. w == v) artifact_versions)) meta_versions))

-- `versions.into_iter().max()`.
abbrev pub max_of : List ℕ → Option ℕ
max_of [] = none
max_of (v ∷ vs) = elim (max_of vs) [ none ↦ some v | some w ↦ some (if leb w v then v else w) ]

abbrev pub max_history_version : Io (Option ℕ)
max_history_version = list_history_versions >>= λ versions. return (max_of versions)

-- Each `ensure_…_dir` and `fsync_dir` is one step.
module _ (metadata_json : Json ArtifactMetadata) where
  unfoldable pub append_to_history : ℕ → List ℕ → ArtifactMetadata → Io Unit
  append_to_history version artifact meta =
      step
      >> write_atomic (history_artifact_path version) artifact
      >> ok_or (metadata_json.to_vec meta)
      >>= (λ meta_json. write_atomic (history_metadata_path version) meta_json >> step)

  unfoldable pub promote_to_lkg : List ℕ → ArtifactMetadata → Io Unit
  promote_to_lkg artifact meta =
      step
      >> write_atomic lkg_artifact artifact
      >> ok_or (metadata_json.to_vec meta)
      >>= (λ meta_json. write_atomic lkg_metadata meta_json >> step)

  abbrev pub loaded : Option (List ℕ) → Option (List ℕ) → Io (Option (List ℕ × ArtifactMetadata))
  loaded none none = return none
  loaded (some artifact) (some meta_bytes) =
      ok_or (metadata_json.from_slice meta_bytes) >>= λ meta. return (some (artifact, meta))
  loaded (some _) none = fail
  loaded none (some _) = fail

  unfoldable pub load_lkg : Io (Option (List ℕ × ArtifactMetadata))
  load_lkg =
      read_if_present lkg_artifact >>= λ artifact. read_if_present lkg_metadata >>= loaded artifact

  unfoldable pub recover_lkg_from_history : ℕ → Io Unit
  recover_lkg_from_history version =
      read_if_present (history_artifact_path version) >>= λ artifact_if_present.
      ok_or artifact_if_present >>= λ artifact.
      read_if_present (history_metadata_path version) >>= λ metadata_if_present.
      ok_or metadata_if_present >>= λ meta_bytes.
      ok_or (metadata_json.from_slice meta_bytes) >>= promote_to_lkg artifact

  -- Without metadata, the highest version of the history is tried, or else the artifact removed.
  abbrev pub recovered : Option ℕ → Io (Option {0} Unit)
  recovered none = return none
  recovered (some version) = tried (recover_lkg_from_history version)

  abbrev pub unless_recovered : Option {0} Unit → Io Unit
  unless_recovered (some _) = return tt
  unless_recovered none = step >> try_remove lkg_artifact

  abbrev pub repaired : Option (List ℕ) → Option (List ℕ) → Io Unit
  repaired none none = return tt
  repaired none (some meta_bytes) =
      ok_or (metadata_json.from_slice meta_bytes) >>= λ meta. recover_lkg_from_history meta.version
  repaired (some _) none = max_history_version >>= λ version. recovered version >>= unless_recovered
  repaired (some _) (some _) = return tt

  unfoldable pub repair_lkg : Io Unit
  repair_lkg = read_if_present lkg_artifact >>= λ artifact.
      read_if_present lkg_metadata >>= repaired artifact

module _ (state_codec : Json RelayState) where
  unfoldable pub save_state : RelayState → Io Unit
  save_state state =
      ok_or (state_codec.to_vec state) >>= (λ contents. write_atomic state_json contents >> step)

  abbrev pub parsed_state : Option (List ℕ) → Io (Option RelayState)
  parsed_state none = return none
  parsed_state (some bytes) = ok_or (state_codec.from_slice bytes) >>= λ state. return (some state)

  unfoldable pub load_state : Io (Option RelayState)
  load_state = read_if_present state_json >>= parsed_state

abbrev pub derive_state_from_lkg : ArtifactMetadata → RelayState
derive_state_from_lkg lkg_meta = record { current_version = lkg_meta.version }
