-- ===== src/Adapters/OfflineSubmitQueue/Replay.antt =====
-- A replay drains the pending entries in order.
use formspec_web.Common.{
  String, ◌≡◌, refl, sym, ap, ◌⊎◌, true, false, some, List, [], ◌∷◌, ◌++◌, map, Result, ok, err,
  lookup, includes, str_eq, eq_iff, arith, Bool-cases, inl, inr,
}
use mathlib.Core.Path.{subst}
use formspec_web.Adapters.OfflineSubmitQueue.{
  QueuedSubmit, ReplayOutcome, sent, failed, Queue, dropped, replay_from, replay,
}

other_key :
    (ks : List String) (i j : String)
    → includes ks i ≡ false
    → includes ks j ≡ true
    → str_eq i j ≡ false
other_key ks i j missing there = elim (Bool-cases (str_eq i j)) [
  | inl e ↦ (let same = (eq_iff i j).0 e in cc)
  | inr e ↦ e
]

answer_cases : {X C : Type 0} (a : Result X C) → ((c : C) × (a ≡ ok c)) ⊎ ((x : X) × (a ≡ err x))
answer_cases (ok c) = inl (c, refl)
answer_cases (err x) = inr (x, refl)

module _ {H : Type 0} where
  abbrev pub keys_of : List (QueuedSubmit H) → List String
  keys_of es = map (λ e. e.idempotency_key) es

  abbrev pub entries_of : List (QueuedSubmit H) → List (String × QueuedSubmit H)
  entries_of es = map (λ e. (e.idempotency_key, e)) es

  -- The queue with these entries pending.
  abbrev pub queue_of : List (QueuedSubmit H) → Queue H
  queue_of es = record { order = keys_of es; by_key = entries_of es }

  abbrev pub HasDistinctKeys : List (QueuedSubmit H) → Type 0
  HasDistinctKeys [] = Unit
  HasDistinctKeys (e ∷ es) = (includes (keys_of es) e.idempotency_key ≡ false) × HasDistinctKeys es

  includes-keys_of :
      (fs es : List (QueuedSubmit H)) (e : QueuedSubmit H)
      → includes (keys_of (fs ++ e ∷ es)) e.idempotency_key ≡ true
  includes-keys_of [] es e = ground (arith, eq_iff e.idempotency_key e.idempotency_key)
  includes-keys_of (f ∷ fs) es e = ground (arith, includes-keys_of fs es e)

  -- What stands before an entry with other keys does not hide it.
  lookup-entries_of :
      (fs es : List (QueuedSubmit H)) (e : QueuedSubmit H)
      → HasDistinctKeys (fs ++ e ∷ es)
      → lookup (entries_of (fs ++ e ∷ es)) e.idempotency_key ≡ some e
  lookup-entries_of [] es e h = ground (arith, eq_iff e.idempotency_key e.idempotency_key)
  lookup-entries_of (f ∷ fs) es e (new, h) =
      rw
        (other_key (keys_of (fs ++ e ∷ es)) f.idempotency_key e.idempotency_key new
          (includes-keys_of fs es e))
        (lookup-entries_of fs es e h)

  remove-entries_of :
      (fs es : List (QueuedSubmit H)) (e : QueuedSubmit H)
      → HasDistinctKeys (fs ++ e ∷ es)
      → dropped (queue_of (fs ++ e ∷ es)) e.idempotency_key ≡ queue_of (fs ++ es)
  remove-entries_of [] es e h = ground (arith, eq_iff e.idempotency_key e.idempotency_key)
  remove-entries_of (f ∷ fs) es e (new, h) =
      rw
        (other_key (keys_of (fs ++ e ∷ es)) f.idempotency_key e.idempotency_key new
          (includes-keys_of fs es e))
        (ap
          (λ q. record {
            order = f.idempotency_key ∷ q.order;
            by_key = (f.idempotency_key, f) ∷ q.by_key;
          })
          (remove-entries_of fs es e h))

  append_assoc :
      (fs es : List (QueuedSubmit H)) (e : QueuedSubmit H) → (fs ++ e ∷ []) ++ es ≡ fs ++ e ∷ es
  append_assoc [] es e = refl
  append_assoc (f ∷ fs) es e = ap (λ xs. f ∷ xs) (append_assoc fs es e)

  includes_rest :
      (fs es : List (QueuedSubmit H)) (e : QueuedSubmit H) (k : String)
      → includes (keys_of (fs ++ e ∷ es)) k ≡ false
      → includes (keys_of (fs ++ es)) k ≡ false
  includes_rest [] es e k h = ground arith
  includes_rest (f ∷ fs) es e k h = ground (arith, includes_rest fs es e k)

  HasDistinctKeys-rest :
      (fs es : List (QueuedSubmit H)) (e : QueuedSubmit H)
      → HasDistinctKeys (fs ++ e ∷ es)
      → HasDistinctKeys (fs ++ es)
  HasDistinctKeys-rest [] es e h = h.1
  HasDistinctKeys-rest (f ∷ fs) es e (new, h) =
      (includes_rest fs es e f.idempotency_key new, HasDistinctKeys-rest fs es e h)

module _ {H C X W : Type 0} (submit : W → H → String → W × Result X C) where
  -- What a replay should do: each entry is submitted once, in order, under its own key; those that
  -- fail stay, in order.
  unfoldable pub drain :
      W → List (QueuedSubmit H) → W × List (QueuedSubmit H) × List (ReplayOutcome C X)
  drain w [] = (w, [], [])
  drain w (e ∷ es) =
      let (after, answer) = submit w e.handoff e.idempotency_key in
      let (last, kept, outcomes) = drain after es in
      elim answer [
        | ok confirmation ↦ (last, kept, sent e.idempotency_key confirmation ∷ outcomes)
        | err error ↦ (last, e ∷ kept, failed e.idempotency_key error ∷ outcomes)
      ]

  failed_step :
      (w : W) (fs es : List (QueuedSubmit H)) (e : QueuedSubmit H)
      → replay_from submit w (queue_of ((fs ++ e ∷ []) ++ es)) (keys_of es) ≡ (
          let (last, kept, outcomes) = drain w es in
          (last, queue_of ((fs ++ e ∷ []) ++ kept), outcomes))
      → replay_from submit w (queue_of (fs ++ e ∷ es)) (keys_of es)
        ≡ (let (last, kept, outcomes) = drain w es in (last, queue_of (fs ++ e ∷ kept), outcomes))
  failed_step w fs es e h = rw (← append_assoc fs es e, ← append_assoc fs (drain w es).1 e) h

  replay_from-drain :
      (w : W) (fs es : List (QueuedSubmit H))
      → HasDistinctKeys (fs ++ es)
      → replay_from submit w (queue_of (fs ++ es)) (keys_of es)
        ≡ (let (last, kept, outcomes) = drain w es in (last, queue_of (fs ++ kept), outcomes))
  unfolding replay_from drain
  replay_from-drain w fs [] h = refl
  replay_from-drain w fs (e ∷ es) h =
      let after = (submit w e.handoff e.idempotency_key).0 in
      elim (answer_cases (submit w e.handoff e.idempotency_key).1) [
        | inl (c, answer) ↦
            rw
              (
                replay_from,
                drain,
                lookup-entries_of fs es e h,
                answer,
                remove-entries_of fs es e h,
                replay_from-drain after fs es (HasDistinctKeys-rest fs es e h),
              )
              refl
        | inr (x, answer) ↦
            rw
              (
                replay_from,
                drain,
                lookup-entries_of fs es e h,
                answer,
                failed_step after fs es e (
                    replay_from-drain after (fs ++ e ∷ []) es
                      (subst HasDistinctKeys (sym (append_assoc fs es e)) h)),
              )
              refl
      ]

  -- In a queue of entries with distinct keys, a replay submits each pending entry once, in order, with
  -- its handoff and under its own key, reports the answers in that order, and leaves pending
  -- exactly the entries whose submission failed, in order.
  pub replay-drain :
      (w : W) (es : List (QueuedSubmit H))
      → HasDistinctKeys es
      → replay submit w (queue_of es)
        ≡ (let (last, kept, outcomes) = drain w es in (last, queue_of kept, outcomes))
  unfolding replay
  replay-drain w es h = replay_from-drain w [] es h
