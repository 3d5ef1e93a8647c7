-- ===== src/Tests/Offline.antt =====
-- Theorems on the offline queue, at two entries and a transport that refuses every other attempt.
use formspec_web.Common.{ℕ, zero, suc, String, ◌≡◌, refl, true, List, [], ◌∷◌, Result, ok, err}
use formspec_web.Adapters.OfflineSubmitQueue.{QueuedSubmit, empty, enqueue, replay, replay_from}
use formspec_web.Adapters.OfflineSubmitQueue.Replay.{queue_of, drain, replay-drain}

abbrev every_other : ℕ → String → String → ℕ × Result String String
every_other zero handoff key = (1, err "offline")
every_other (suc n) handoff key = (0, ok key)

abbrev entry : String → QueuedSubmit String
entry key = record { idempotency_key = key; handoff = "response"; enqueued_at = "now" }

abbrev two : List (QueuedSubmit String)
two = entry "a" ∷ entry "b" ∷ []

replay-drain_example :
    replay every_other 0 (queue_of two)
    ≡ (let (last, kept, outcomes) = drain every_other 0 two in (last, queue_of kept, outcomes))
replay-drain_example = replay-drain every_other 0 two (refl, (refl, tt))

replay_keeps_first : (replay every_other 0 (queue_of two)).1.order ≡ "a" ∷ []
unfolding replay replay_from
replay_keeps_first = refl

enqueued_a :
    enqueue (λ k. true) empty "response" "a" "now" ≡ ok (queue_of (entry "a" ∷ []), entry "a")
unfolding enqueue
enqueued_a = refl
