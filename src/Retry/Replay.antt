-- ===== src/Retry/Replay.antt =====
-- Which bodies can be sent again.
use pavis.Prelude.{
  ℕ, ◌<◌, ◌↔◌, Bool, true, not, ◌&&◌, Option, List, length, leb, ◌≡◌, ◌⊎◌, inl, arith,
}
use pavis.Prelude.Text.{Text}
use pavis.Retry.{Recording, new_body, can_replay, not_replayable, handle_non_replayable}

-- A body can be sent again exactly if it was not streamed and fits in the buffer, the empty one
-- included; its bytes are kept; and where it cannot be sent again, an error is raised exactly if the
-- policy asks for one.
pub body_replay :
    (bytes : List ℕ) (max_size : ℕ) (metrics : Option (List Recording)) (upstream : Text)
    (force fail : Bool)
    → (can_replay (new_body bytes max_size metrics upstream force).0
        ≡ (not force && leb (length bytes) max_size))
      × ((new_body bytes max_size metrics upstream force).0.bytes ≡ bytes)
      × ((handle_non_replayable fail (new_body bytes max_size metrics upstream force).0
            ≡ inl not_replayable)
          ↔ (((force ≡ true) ⊎ (max_size < length bytes)) × (fail ≡ true)))
unfolding new_body can_replay handle_non_replayable
body_replay bytes max_size metrics upstream force fail = ground arith
