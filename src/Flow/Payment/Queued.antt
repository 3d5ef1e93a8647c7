-- ===== src/Flow/Payment/Queued.antt =====
-- A submission without a payment, on the in-memory queue (src/adapters/stub/offline-submit-queue.ts).
use formspec_web.Common.{
  String, ◌≡◌, refl, Bool, true, false, none, List, [], ◌∷◌, ◌++◌, Result, ok, includes, lookup,
  insert, str_eq, eq_iff, arith,
}
use formspec_web.Policy.FeatureKeys.{has_key, offline_submit}
use formspec_web.Policy.Shapes.{ResolvedRuntimeProfile}
use formspec_web.Adapters.OfflineSubmitQueue.{QueuedSubmit, enqueue, replay}
use formspec_web.Adapters.OfflineSubmitQueue.Replay.{
  keys_of, entries_of, queue_of, HasDistinctKeys, drain, replay-drain,
}
use formspec_web.Flow.Payment.{submit_or_queue, queued}

module _ {H : Type 0} where
  lookup-entries_of :
      (es : List (QueuedSubmit H)) (key : String)
      → includes (keys_of es) key ≡ false
      → lookup (entries_of es) key ≡ none
  lookup-entries_of [] key new = refl
  lookup-entries_of (e ∷ es) key new = ground (arith, lookup-entries_of es key)

  insert-entries_of :
      (es : List (QueuedSubmit H)) (e : QueuedSubmit H)
      → includes (keys_of es) e.idempotency_key ≡ false
      → insert (entries_of es) e.idempotency_key e ≡ entries_of (es ++ e ∷ [])
  insert-entries_of [] e new = refl
  insert-entries_of (f ∷ es) e new = ground (arith, insert-entries_of es e)

  keys_of-append :
      (es : List (QueuedSubmit H)) (e : QueuedSubmit H)
      → keys_of es ++ e.idempotency_key ∷ [] ≡ keys_of (es ++ e ∷ [])
  keys_of-append [] e = refl
  keys_of-append (f ∷ es) e = ground (arith, keys_of-append es e)

  append_new :
      (es : List (QueuedSubmit H)) (e : QueuedSubmit H) (key : String)
      → includes (keys_of es) key ≡ false
      → str_eq e.idempotency_key key ≡ false
      → includes (keys_of (es ++ e ∷ [])) key ≡ false
  append_new [] e key new other = ground (arith, other)
  append_new (f ∷ es) e key new other = ground (arith, append_new es e key)

  append-HasDistinctKeys :
      (es : List (QueuedSubmit H)) (e : QueuedSubmit H)
      → HasDistinctKeys es
      → includes (keys_of es) e.idempotency_key ≡ false
      → HasDistinctKeys (es ++ e ∷ [])
  append-HasDistinctKeys [] e h new = (refl, tt)
  append-HasDistinctKeys (f ∷ es) e (fresh, h) new =
      let new_there : includes (keys_of es) e.idempotency_key ≡ false = ground (arith, new) in
      let other : str_eq e.idempotency_key f.idempotency_key ≡ false = ground (
        arith,
        new,
        eq_iff e.idempotency_key f.idempotency_key,
        eq_iff f.idempotency_key e.idempotency_key,
      ) in
      (append_new es e f.idempotency_key fresh other, append-HasDistinctKeys es e h new_there)

  abbrev pub entry_of : H → String → String → QueuedSubmit H
  entry_of handoff key now = record { idempotency_key = key; handoff = handoff; enqueued_at = now }

  module _ {C X W : Type 0} (is_uuid_v7 : String → Bool)
      (submit : W → H → String → W × Result X C) where
    enqueue_new :
        (es : List (QueuedSubmit H)) (handoff : H) (key now : String)
        → is_uuid_v7 key ≡ true
        → includes (keys_of es) key ≡ false
        → enqueue is_uuid_v7 (queue_of es) handoff key now
          ≡ ok (queue_of (es ++ entry_of handoff key now ∷ []), entry_of handoff key now)
    unfolding enqueue
    enqueue_new es handoff key now valid new =
        rw
          (
            valid,
            lookup-entries_of es key new,
            insert-entries_of es (entry_of handoff key now) new,
            keys_of-append es (entry_of handoff key now),
          )
          refl

    -- Offline with the feature `offlineSubmit`, and with a valid key that is not queued: a submission
    -- is queued behind the pending ones without a call of the transport. A replay then gives
    -- what submitting the entries in order gives, this one last and under its key.
    pub submit_or_queue-replay :
        (es : List (QueuedSubmit H)) (w v : W) (profile : ResolvedRuntimeProfile) (handoff : H)
        (key now : String)
        → HasDistinctKeys es
        → has_key profile.enabled offline_submit ≡ true
        → is_uuid_v7 key ≡ true
        → includes (keys_of es) key ≡ false
        → (submit_or_queue
              (λ q h k. enqueue is_uuid_v7 q h k now)
              submit
              (queue_of es)
              w
              false
              profile
              handoff
              key
            ≡ (
              queue_of (es ++ entry_of handoff key now ∷ []),
              w,
              ok (queued (entry_of handoff key now)),
            ))
          × (replay submit v (queue_of (es ++ entry_of handoff key now ∷ [])) ≡ (
              let (last, kept, outcomes) = drain submit v (es ++ entry_of handoff key now ∷ []) in
              (last, queue_of kept, outcomes)))
    unfolding submit_or_queue
    submit_or_queue-replay es w v profile handoff key now distinct on valid new = (
      rw (on, enqueue_new es handoff key now valid new) refl,
      replay-drain submit v _ (append-HasDistinctKeys es (entry_of handoff key now) distinct new),
    )
