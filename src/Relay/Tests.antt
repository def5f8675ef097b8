-- ===== src/Relay/Tests.antt =====
-- A relay with one artifact on disk, and the theorems at it.
use pavis.Prelude.{
  ℕ, ◌<◌, Option, none, some, List, [], ◌∷◌, ◌≡◌, refl, arith, All, true, false, map,
}
use pavis.Prelude.Text.{Text, bytes}
use pavis.Pvs.{compute_checksum}
use pavis.Relay.ETag.{parse_if_none_match, parse_trimmed, etag_from_checksum, quote_etag}
use pavis.Relay.ETag.RoundTrip.{parse_if_none_match-etag}
use pavis.Relay.Serve.{
  RelaySnapshotView, notified, expired, fresh, no_content, long_poll, decide, get_config,
}
use pavis.Pvs.Sample.{
  old_bytes, old_header, old_accepts, digest_wide, digest, rkyv, header, file_bytes, accepts,
}
use pavis.Relay.Disk.{Disk, Fault, works, crashes, done}
use pavis.Relay.Disk.Hoare.{Ends}
use pavis.Relay.Names.{parse_version, version_artifact_name, version_metadata_name}
use pavis.Relay.Names.RoundTrip.{parse_version-names}
use pavis.Relay.Storage.{Json, ArtifactMetadata, RelayState}
use pavis.Relay.Runtime.{checksum_for_bytes, RelayArtifact, RelayRuntimeState, storage, refused}
use pavis.Relay.Publish.{metadata_of, next_version, publish_bytes, publish_with_retry}
use pavis.Relay.Publish.Written.{IsJson}
use pavis.Relay.Publish.Unchanged.{IsUnchanged}
use pavis.Relay.Publish.Crash.{loaded_lkg, IsRecovered, publish_bytes-IsRecovered}
use pavis.Relay.Publish.Retries.{HasEnded, publish_with_retry-HasEnded}
use pavis.Relay.Pipeline.{
  BackoffConfig, Turn, exhausted, run_pipeline, reset, next_delay, new, serve, run_from,
}
use pavis.Relay.Pipeline.Delays.{documented, ranks, run_pipeline-documented}
use pavis.Relay.Publish.Failed.{metadata_fails, refused_is_loaded}

abbrev metadata_read : List ℕ → Option ArtifactMetadata
metadata_read (version ∷ published_at ∷ size ∷ checksum) =
    some
      (record { version = version; published_at = published_at; checksum = checksum; size = size })
metadata_read _ = none

abbrev metadata_json : Json ArtifactMetadata
metadata_json = record {
  to_vec = λ m. some (m.version ∷ m.published_at ∷ m.size ∷ m.checksum);
  from_slice = metadata_read;
}

metadata_json-IsJson : IsJson metadata_json
metadata_json-IsJson m = (m.version ∷ m.published_at ∷ m.size ∷ m.checksum, refl, refl)

abbrev state_read : List ℕ → Option RelayState
state_read (version ∷ _) = some (record { current_version = version })
state_read [] = none

abbrev state_codec : Json RelayState
state_codec = record { to_vec = λ s. some (s.current_version ∷ []); from_slice = state_read }

state_codec-IsJson : IsJson state_codec
state_codec-IsJson s = (s.current_version ∷ [], refl, refl)

abbrev old_meta : ArtifactMetadata
old_meta = record { version = 4; published_at = 1; checksum = bytes "x"; size = 1 }

abbrev disk : Disk
disk = record {
  artifact = some old_bytes;
  metadata = some (4 ∷ 1 ∷ 1 ∷ bytes "x");
  state = some (4 ∷ []);
  entries = [];
}

abbrev old_artifact : RelayArtifact
old_artifact = record { bytes = old_bytes; meta = none; generated_at = 1 }

abbrev state : RelayRuntimeState
state = record {
  version = 4;
  artifact = old_artifact;
  artifact_checksum = bytes "x";
  history = [];
  wakes = 0;
  ready = true;
  publish_ok = 0;
  max_pvs_bytes = 0;
}

-- A crash at the seventh call of the file system.
abbrev crash_late : List Fault
crash_late = works ∷ works ∷ works ∷ works ∷ works ∷ works ∷ crashes ∷ []

abbrev four : RelayState
four = record { current_version = 4 }

abbrev Recovered : Disk → Type 0
Recovered =
    IsRecovered digest rkyv metadata_json state_codec metadata_json-IsJson state_codec-IsJson
      old_bytes file_bytes old_meta (metadata_of digest (next_version state) file_bytes 9) 0 10

publish_bytes-IsRecovered_example :
    Ends
      (λ answer d. Recovered d × IsUnchanged state answer)
      (λ _. ⊥)
      Recovered
      (publish_bytes digest rkyv metadata_json state_codec file_bytes 9 state disk crash_late)
publish_bytes-IsRecovered_example =
    publish_bytes-IsRecovered digest rkyv metadata_json state_codec metadata_json-IsJson
      state_codec-IsJson disk old_bytes (4 ∷ 1 ∷ 1 ∷ bytes "x") file_bytes old_meta 9 10 state
      (old_header, 8 ∷ 9 ∷ []) refl refl refl old_accepts refl (four, refl) crash_late

publish_with_retry-HasEnded_example :
    Ends
      (λ result _. HasEnded state result)
      (λ _. ⊥)
      (λ _. Unit {0})
      (publish_with_retry digest rkyv metadata_json state_codec 3 7 2 0
        (λ n. n)
        state
        disk
        metadata_fails)
publish_with_retry-HasEnded_example =
    publish_with_retry-HasEnded digest rkyv metadata_json state_codec metadata_json-IsJson
      state_codec-IsJson 7 state 2 (λ n. n) disk metadata_fails (omega arith)

refused_is_loaded_example :
    Ends
      (λ answer d.
        (answer ≡ refused storage state)
        × (loaded_lkg metadata_json d ≡ done (some (file_bytes, old_meta)) d []))
      (λ _. ⊥)
      (λ _. ⊥)
      (publish_bytes digest rkyv metadata_json state_codec file_bytes 9 state disk metadata_fails)
refused_is_loaded_example =
    refused_is_loaded digest rkyv metadata_json state_codec metadata_json-IsJson disk old_bytes
      (4 ∷ 1 ∷ 1 ∷ bytes "x") file_bytes old_meta 9 state
      (record { header = header; bytes = file_bytes }) refl refl refl refl accepts

parse_version-names_example :
    (parse_version (version_artifact_name 42) (bytes ".pvs") ≡ some 42)
    × (parse_version (version_metadata_name 42) (bytes ".meta.json") ≡ some 42)
    × (parse_version (version_metadata_name 42) (bytes ".pvs") ≡ none)
    × (parse_version (version_artifact_name 42) (bytes ".meta.json") ≡ none)
parse_version-names_example = parse_version-names 42 (omega arith)

checksum_small : All (λ b. b < 256) (compute_checksum digest (7 ∷ 255 ∷ []))
unfolding compute_checksum
checksum_small = ground arith

parse_if_none_match-etag_example :
    let etag = etag_from_checksum (checksum_for_bytes digest (7 ∷ 255 ∷ [])) in
    (etag ≡ checksum_for_bytes digest (7 ∷ 255 ∷ []))
    × (parse_if_none_match some (some (quote_etag etag)) ≡ some etag)
parse_if_none_match-etag_example =
    parse_if_none_match-etag digest some (7 ∷ 255 ∷ []) (digest_wide (7 ∷ 255 ∷ [])) checksum_small
      refl

abbrev served_etag : Text
served_etag = bytes "sha256:0505050505050505050505050505050505050505050505050505050505050505"

abbrev served : RelaySnapshotView
served = record { version = 4; pvs_bytes = 5 ∷ []; artifact_checksum = served_etag }

-- A client that has the artifact waits, is woken for the same artifact, and waits to the end.
abbrev held : Option (List ℕ)
held = some (quote_etag (served_etag))

waited :
    get_config some true (some 500) true held served (notified served ∷ expired ∷ [])
    ≡ some (no_content (served_etag))
unfolding get_config parse_if_none_match parse_trimmed decide long_poll etag_from_checksum
    quote_etag
waited = refl

-- Without a tag the artifact is served at once.
served_at_once :
    get_config some true (some 500) true none served [] ≡ some (fresh served (served_etag))
unfolding get_config parse_if_none_match decide etag_from_checksum
served_at_once = refl

abbrev pauses : BackoffConfig
pauses = record { base_delay = 3; max_delay = 10 }

abbrev failing : Turn
failing = record { shutdown = false; stream = none; slept = true }

abbrev streaming : Turn
streaming = record { shutdown = false; stream = some (exhausted ∷ []); slept = true }

abbrev turns : List Turn
turns = failing ∷ failing ∷ failing ∷ streaming ∷ failing ∷ []

paused_as_documented : run_pipeline pauses turns ≡ 3 ∷ 6 ∷ 10 ∷ 3 ∷ 6 ∷ []
unfolding run_pipeline run_from new reset next_delay serve
paused_as_documented = refl

run_pipeline-documented_example :
    run_pipeline pauses turns ≡ map (documented pauses) (ranks 0 turns)
run_pipeline-documented_example = run_pipeline-documented pauses (omega arith) turns
