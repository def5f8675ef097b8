-- ===== src/Relay/Serve.antt =====
-- get_config of crates/pavis-relay/src/handlers.rs: when a client is answered with what. A wait is
-- given by the turns of its loop: the time was over, the timer fired, or it was woken and read the
-- snapshot that it holds.
pub mod Fitting
use pavis.Prelude.{
  ℕ, ◌+◌, Bool, true, false, not, ◌&&◌, Option, none, some, List, [], ◌∷◌, length, ltb,
  if◌then◌else◌,
}
use pavis.Prelude.Text.{Text, bytes, text_eq}
use pavis.Prelude.Decimal.{decimal}
use pavis.Relay.ETag.{parse_if_none_match, etag_from_checksum, quote_etag}

pub record RelaySnapshotView : Type 0 where
  pub version : ℕ
  pub pvs_bytes : List ℕ
  pub artifact_checksum : Text

pub record Response : Type 0 where
  pub status : ℕ
  pub headers : List (Text × Text)
  pub body : List ℕ

abbrev pub build_200_response : RelaySnapshotView → Text → Response
build_200_response snapshot etag = record {
  status = 200;
  headers =
      (bytes "content-type", bytes "application/octet-stream")
      ∷ (bytes "etag", quote_etag etag)
      ∷ (bytes "x-config-size", decimal (length snapshot.pvs_bytes))
      ∷ (bytes "x-config-version", decimal snapshot.version)
      ∷ (bytes "cache-control", bytes "no-store")
      ∷ [];
  body = snapshot.pvs_bytes;
}

abbrev unchanged_response : ℕ → Text → Response
unchanged_response status etag = record {
  status = status;
  headers = (bytes "etag", quote_etag etag) ∷ (bytes "cache-control", bytes "no-store") ∷ [];
  body = [];
}

abbrev pub build_204_response : Text → Response
build_204_response etag = unchanged_response 204 etag

abbrev pub build_304_response : Text → Response
build_304_response etag = unchanged_response 304 etag

abbrev pub build_503_response : Response
build_503_response = record {
  status = 503;
  headers = (bytes "retry-after", bytes "1") ∷ [];
  body = [];
}

abbrev pub build_400_response : Text → Response
build_400_response message = record {
  status = 400;
  headers = (bytes "content-type", bytes "text/plain; charset=utf-8") ∷ [];
  body = message;
}

-- Which of the builders is called.
pub data Decision : Type 0 where
  unavailable bad_request : Decision
  fresh : (snapshot : RelaySnapshotView) → (etag : Text) → Decision
  no_content not_modified : (etag : Text) → Decision

abbrev pub built : Decision → Response
built unavailable = build_503_response
built bad_request = build_400_response (bytes "wait_ms must be in range 0..=60000 (milliseconds)\n")
built (fresh snapshot etag) = build_200_response snapshot etag
built (no_content etag) = build_204_response etag
built (not_modified etag) = build_304_response etag

pub data Turn : Type 0 where
  expired timed_out : Turn
  notified : (snapshot : RelaySnapshotView) → Turn

abbrev pub etag_of : RelaySnapshotView → Text
etag_of snapshot = etag_from_checksum snapshot.artifact_checksum

-- `none` while it waits.
unfoldable pub long_poll : (current_etag : Text) → List Turn → Option Decision
long_poll current_etag [] = none
long_poll current_etag (expired ∷ turns) = some (no_content current_etag)
long_poll current_etag (timed_out ∷ turns) = some (no_content current_etag)
long_poll current_etag (notified snapshot ∷ turns) =
    let new_etag = etag_of snapshot in
    let rest = long_poll new_etag turns in
    if not (text_eq new_etag current_etag) then some (fresh snapshot new_etag) else rest

-- After the entity tag of the client has been parsed.
unfoldable pub decide :
    (client_etag : Option Text)
    → (wait_ms : ℕ) → (long_poll_enabled : Bool) → RelaySnapshotView
    → List Turn
    → Option Decision
decide (some etag) wait_ms long_poll_enabled snapshot turns =
    let current_etag = etag_of snapshot in
    let waited = long_poll current_etag turns in
    if not (text_eq etag current_etag)
    then some (fresh snapshot current_etag)
    else if ltb 0 wait_ms && long_poll_enabled
    then waited
    else if text_eq etag current_etag
    then some (not_modified current_etag)
    else some (fresh snapshot current_etag)
decide none wait_ms long_poll_enabled snapshot turns =
    let current_etag = etag_of snapshot in
    let waited = long_poll current_etag turns in
    if ltb 0 wait_ms
    then some (fresh snapshot current_etag)
    else if ltb 0 wait_ms && long_poll_enabled
    then waited
    else some (fresh snapshot current_etag)

abbrev pub unwrap_or_0 : Option ℕ → ℕ
unwrap_or_0 none = 0
unwrap_or_0 (some wait_ms) = wait_ms

unfoldable pub get_config :
    (to_str : List ℕ → Option Text)
    → (ready : Bool) → (wait_ms : Option ℕ) → (long_poll_enabled : Bool)
    → (if_none_match : Option (List ℕ)) → RelaySnapshotView
    → List Turn
    → Option Decision
get_config to_str ready wait_ms long_poll_enabled if_none_match snapshot turns =
    if not ready
    then some unavailable
    else if ltb 60000 (unwrap_or_0 wait_ms)
    then some bad_request
    else decide (parse_if_none_match to_str if_none_match) (unwrap_or_0 wait_ms) long_poll_enabled
        snapshot turns
