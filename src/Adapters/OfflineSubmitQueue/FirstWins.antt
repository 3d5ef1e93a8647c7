-- ===== src/Adapters/OfflineSubmitQueue/FirstWins.antt =====
-- A key that is queued twice.
use formspec_web.Common.{
  String, ◌≡◌, refl, Bool, true, some, ok, lookup, lookup-insert, eq_iff, arith,
}
use formspec_web.Adapters.OfflineSubmitQueue.{QueuedSubmit, Queue, enqueue}

module _ {H : Type 0} (is_uuid_v7 : String → Bool) where
  enqueue_kept :
      (q r : Queue H) (h : H) (k t : String) (e : QueuedSubmit H)
      → enqueue is_uuid_v7 q h k t ≡ ok (r, e)
      → (is_uuid_v7 k ≡ true) × (lookup r.by_key k ≡ some e)
  unfolding enqueue
  enqueue_kept q r h k t e done_so = ground (
    arith,
    eq_iff k k,
    lookup-insert q.by_key k (record { idempotency_key = k; handoff = h; enqueued_at = t }) k,
  )

  found_again :
      (r : Queue H) (h : H) (k t : String) (e : QueuedSubmit H)
      → is_uuid_v7 k ≡ true
      → lookup r.by_key k ≡ some e
      → enqueue is_uuid_v7 r h k t ≡ ok (r, e)
  unfolding enqueue
  found_again r h k t e good kept = rw (good, kept) refl

  -- After a handoff is queued under a key, queueing any handoff under that key at any time changes
  -- nothing and returns the entry of the first.
  enqueue_first_wins :
      (q r : Queue H) (h g : H) (k t u : String) (e : QueuedSubmit H)
      → enqueue is_uuid_v7 q h k t ≡ ok (r, e)
      → enqueue is_uuid_v7 r g k u ≡ ok (r, e)
  enqueue_first_wins q r h g k t u e done_so =
      let (good, kept) = enqueue_kept q r h k t e done_so in found_again r g k u e good kept
