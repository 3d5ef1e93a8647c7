-- ===== src/Adapters/OfflineSubmitQueue.antt =====
-- The in-memory queue of submissions (src/adapters/stub/offline-submit-queue.ts). The transport is a
-- parameter: from the world before an attempt to the world after it, and a confirmation or an error.
-- Nothing else is called while a replay waits for the transport.
pub mod FirstWins
pub mod Replay
use formspec_web.Common.{
  String, Bool, not, Option, none, some, List, [], ◌∷◌, ◌++◌, map, Result, ok, err, lookup, insert,
  str_eq, if◌then◌else◌,
}

pub record QueuedSubmit (H : Type 0) : Type 0 where
  pub idempotency_key : String
  pub handoff : H
  pub enqueued_at : String

pub data ReplayOutcome (C X : Type 0) : Type 0 where
  sent : String → C → ReplayOutcome C X
  failed : String → X → ReplayOutcome C X

-- `order` and `byKey`.
pub record Queue (H : Type 0) : Type 0 where
  pub order : List String
  pub by_key : List (String × QueuedSubmit H)

abbrev pub empty : {H : Type 0} → Queue H
empty = record { order = []; by_key = [] }

-- `byKey.delete(key)`
abbrev pub remove : {A : Type 0} → List (String × A) → String → List (String × A)
remove [] key = []
remove ((k, v) ∷ m) key = if str_eq k key then m else (k, v) ∷ remove m key

-- `order.indexOf(key)`, and the splice at that index if there is one.
abbrev pub splice : List String → String → List String
splice [] key = []
splice (k ∷ ks) key = if str_eq k key then ks else k ∷ splice ks key

-- `xs.filter((x) => x !== undefined)`
abbrev pub present : {A : Type 0} → List (Option A) → List A
present [] = []
present (none ∷ xs) = present xs
present (some x ∷ xs) = x ∷ present xs

module _ {H : Type 0} where
  -- The key must be a UUIDv7; an error is its message. `now` is the clock's text.
  unfoldable pub enqueue :
      (String → Bool) → Queue H → H → String → String → Result String (Queue H × QueuedSubmit H)
  enqueue is_uuid_v7 q handoff key now =
      if not (is_uuid_v7 key)
      then err "Expected idempotency-key to be a UUIDv7 value"
      else elim (lookup q.by_key key) [
        | some existing ↦ ok (q, existing)
        | none ↦
            let queued : QueuedSubmit H = record {
              idempotency_key = key;
              handoff = handoff;
              enqueued_at = now;
            } in
            ok (record { order = q.order ++ key ∷ []; by_key = insert q.by_key key queued }, queued)
      ]

  unfoldable pub pending : Queue H → List (QueuedSubmit H)
  pending q = present (map (lookup q.by_key) q.order)

  abbrev pub dropped : Queue H → String → Queue H
  dropped q key = record { order = splice q.order key; by_key = remove q.by_key key }

module _ {H C X W : Type 0} (submit : W → H → String → W × Result X C) where
  -- The loop over the snapshot of the keys.
  unfoldable pub replay_from : W → Queue H → List String → W × Queue H × List (ReplayOutcome C X)
  replay_from w q [] = (w, q, [])
  replay_from w q (key ∷ keys) = elim (lookup q.by_key key) [
    | none ↦ replay_from w q keys
    | some entry ↦
        let (after, answer) = submit w entry.handoff entry.idempotency_key in
        elim answer [
          | ok confirmation ↦
              let (last, rest, outcomes) = replay_from after (dropped q key) keys in
              (last, rest, sent key confirmation ∷ outcomes)
          | err error ↦
              let (last, rest, outcomes) = replay_from after q keys in
              (last, rest, failed key error ∷ outcomes)
        ]
  ]

  unfoldable pub replay : W → Queue H → W × Queue H × List (ReplayOutcome C X)
  replay w q = replay_from w q q.order
