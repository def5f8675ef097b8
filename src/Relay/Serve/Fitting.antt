-- ===== src/Relay/Serve/Fitting.antt =====
-- The answers to a conditional fetch, beside what the client has sent.
use pavis.Prelude.{
  ℕ, ◌<◌, ◌≤◌, Bool, true, false, ◌&&◌, Option, none, some, List, [], ◌∷◌, ◌⊎◌, ◌≡◌, ltb,
}
use pavis.Prelude.Text.{Text, text_eq}
use pavis.Relay.Serve.{
  RelaySnapshotView, Decision, unavailable, bad_request, fresh, no_content, not_modified, Turn,
  notified, etag_of,
}

-- Every wake found the tag again, and then the time was over, or it goes on.
abbrev pub ended_unchanged : Text → List Turn → Bool
ended_unchanged etag [] = false
ended_unchanged etag (notified woken ∷ turns) =
    text_eq (etag_of woken) etag && ended_unchanged etag turns
ended_unchanged etag (_ ∷ turns) = true

abbrev pub still_unchanged : Text → List Turn → Bool
still_unchanged etag [] = true
still_unchanged etag (notified woken ∷ turns) =
    text_eq (etag_of woken) etag && still_unchanged etag turns
still_unchanged etag (_ ∷ turns) = false

-- A wake found this snapshot.
abbrev pub WasFound : RelaySnapshotView → List Turn → Type 0
WasFound served [] = ⊥
WasFound served (turn ∷ turns) = ◌⊎◌ {0, 0} (turn ≡ notified served) (WasFound served turns)

-- The client does not have the tag.
abbrev pub Lacks : Option Text → Text → Type 0
Lacks none etag = Unit
Lacks (some held) etag = text_eq held etag ≡ false

module _ (ready : Bool) (client_etag : Option Text) (wait_ms : ℕ) (long_poll_enabled : Bool)
    (snapshot : RelaySnapshotView) (turns : List Turn) where
  -- The client has the current artifact and may wait for another one.
  abbrev pub IsWaiting : Type 0
  IsWaiting = (client_etag ≡ some (etag_of snapshot)) × (1 ≤ wait_ms) × (long_poll_enabled ≡ true)

  abbrev pub IsFitting : Option Decision → Type 0
  IsFitting none = IsWaiting × (still_unchanged (etag_of snapshot) turns ≡ true)
  IsFitting (some unavailable) = ready ≡ false
  IsFitting (some bad_request) = 60000 < wait_ms
  IsFitting (some (fresh served etag)) =
      (etag ≡ etag_of served)
      × Lacks client_etag etag
      × ◌⊎◌ {0, 0} (served ≡ snapshot) (IsWaiting × WasFound served turns)
  IsFitting (some (no_content etag)) =
      IsWaiting × (etag ≡ etag_of snapshot) × (ended_unchanged etag turns ≡ true)
  IsFitting (some (not_modified etag)) =
      (client_etag ≡ some etag)
      × (etag ≡ etag_of snapshot)
      × ((ltb 0 wait_ms && long_poll_enabled) ≡ false)

-- What the loop returns from a tag, over the turns that are left.
abbrev IsAwaited : Text → List Turn → Option Decision → Type 0
IsAwaited etag turns none = still_unchanged etag turns ≡ true
IsAwaited etag turns (some (fresh served new)) =
    (new ≡ etag_of served) × (text_eq etag new ≡ false) × WasFound served turns
IsAwaited etag turns (some (no_content same)) = (same ≡ etag) × (ended_unchanged etag turns ≡ true)
IsAwaited etag turns (some _) = ⊥
