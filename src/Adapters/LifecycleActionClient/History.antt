-- ===== src/Adapters/LifecycleActionClient/History.antt =====
-- The history of a case only grows, and a key keeps its receipt.
use formspec_web.Common.{
  suc, String, ◌≡◌, refl, sym, ap, ◌∙◌, inl, inr, Bool, true, false, none, some, List, [], ◌∷◌,
  append_nil, append_assoc, ◌++◌, Result, ok, err, Result-cases, lookup, insert, lookup-insert,
  str_eq, eq_iff, arith, Option-cases, Bool-cases,
}
use formspec_web.Adapters.LifecycleActionClient.{
  LifecycleAction, EventBody, LifecycleTimelineEvent, LifecycleActionSnapshot,
  LifecycleActionReceipt, Client,
}
use formspec_web.Adapters.LifecycleActionClient.Operations.{
  new_snapshot, snapshot_for, append_receipt, submit,
}

-- The history of a case, empty where the case is not known.
abbrev pub history : Client → String → List LifecycleTimelineEvent
history client case_urn = elim (lookup client.snapshots case_urn) [
  | none ↦ []
  | some snapshot ↦ snapshot.events
]

-- The second list begins with the first.
abbrev pub Extends : {A : Type 0} → List A → List A → Type 0
Extends {A = A} xs ys = (zs : List A) × (ys ≡ xs ++ zs)

-- No event is removed or rewritten, and no key loses its receipt.
pub record Grows (before after : Client) : Type 0 where
  pub events : (case_urn : String) → Extends (history before case_urn) (history after case_urn)
  pub receipts :
      (key : String) (receipt : LifecycleActionReceipt)
      → lookup before.receipts_by_key key ≡ some receipt
      → lookup after.receipts_by_key key ≡ some receipt

pub Grows-refl : (client : Client) → Grows client client
Grows-refl client = record {
  events = λ case_urn. ([], append_nil (history client case_urn));
  receipts = λ key receipt h. h;
}

pub Grows-trans : (a b c : Client) → Grows a b → Grows b c → Grows a c
Grows-trans a b c g h = record {
  events = λ case_urn.
      let (xs, e) = g.events case_urn in
      let (ys, f) = h.events case_urn in
      (xs ++ ys, f ∙ ap (λ zs. zs ++ ys) e ∙ append_assoc (history a case_urn) xs ys);
  receipts = λ key receipt k. h.receipts key receipt (g.receipts key receipt k);
}

-- Writing a longer history of one case.
write_grows :
    (before after : Client) (case_urn : String) (snapshot : LifecycleActionSnapshot)
    → after.snapshots ≡ insert before.snapshots case_urn snapshot
    → Extends (history before case_urn) snapshot.events
    → (other : String) → Extends (history before other) (history after other)
write_grows before after case_urn snapshot written longer other =
    elim (Bool-cases (str_eq case_urn other)) [
      | inl same ↦
          let here : case_urn ≡ other = (eq_iff case_urn other).0 same in
          let (zs, e) = longer in
          (
            zs,
            ground (arith, written, same, lookup-insert before.snapshots case_urn snapshot other)
                ∙ e
                ∙ ap (λ c. history before c ++ zs) here,
          )
      | inr apart ↦ (
        [],
        ground (arith, written, apart, lookup-insert before.snapshots case_urn snapshot other)
            ∙ append_nil (history before other),
      )
    ]

nothing :
    (client : Client) (case_urn : String)
    → lookup client.snapshots case_urn ≡ none
    → history client case_urn ≡ []
nothing client case_urn e = ground (arith, e)

snapshot_for-Grows :
    (client : Client) (case_urn now : String) → Grows client (snapshot_for client case_urn now).0
unfolding snapshot_for
snapshot_for-Grows client case_urn now = elim (Option-cases (lookup client.snapshots case_urn)) [
  | inr (snapshot, e) ↦ rw (snapshot_for, e) (Grows-refl client)
  | inl e ↦
      rw (snapshot_for, e)
        (record {
          events =
              write_grows client
                (record client {
                  snapshots = insert client.snapshots case_urn (new_snapshot client case_urn now);
                  next_event = suc client.next_event;
                })
                case_urn (new_snapshot client case_urn now) refl
                (
                  _,
                  ap (λ xs. xs ++ (new_snapshot client case_urn now).events)
                      (sym (nothing client case_urn e)),
                );
          receipts = λ key receipt h. h;
        })
]

-- The case's snapshot is there afterwards, and the receipts are as before.
snapshot_for-found :
    (client : Client) (case_urn now : String)
    → (history (snapshot_for client case_urn now).0 case_urn
        ≡ (snapshot_for client case_urn now).1.events)
      × ((snapshot_for client case_urn now).0.receipts_by_key ≡ client.receipts_by_key)
unfolding snapshot_for
snapshot_for-found client case_urn now = elim (Option-cases (lookup client.snapshots case_urn)) [
  | inr (snapshot, e) ↦ rw (snapshot_for, e) (ground (arith, e), refl)
  | inl e ↦
      rw (snapshot_for, e)
        (
          ground (
            arith,
            lookup-insert client.snapshots case_urn (new_snapshot client case_urn now) case_urn,
            eq_iff case_urn case_urn,
          ),
          refl,
        )
]

append_receipt-Grows :
    (client : Client) (case_urn : String) (action : LifecycleAction)
    (event : LifecycleTimelineEvent) (key now : String)
    → lookup client.receipts_by_key key ≡ none
    → Grows client (append_receipt client case_urn action event key now).0
unfolding append_receipt
append_receipt-Grows client case_urn action event key now new =
    let opened = (snapshot_for client case_urn now).0 in
    let current = (snapshot_for client case_urn now).1 in
    let (found, same) = snapshot_for-found client case_urn now in
    Grows-trans client opened _ (snapshot_for-Grows client case_urn now) (record {
      events =
          write_grows opened (append_receipt client case_urn action event key now).0 case_urn
            (record current {
              events = current.events ++ event ∷ [];
              updated_at = event.occurred_at;
            })
            refl (event ∷ [], ap (λ xs. xs ++ event ∷ []) (sym found));
      receipts = λ other receipt h.
          let before : lookup client.receipts_by_key other ≡ some receipt =
            ap (λ m. lookup m other) (sym same) ∙ h in
          let apart : str_eq key other ≡ false = ground (arith, new, before, eq_iff key other) in
          lookup-insert opened.receipts_by_key key _ other ∙ rw apart h;
    })

append_receipt-kept :
    (client : Client) (case_urn : String) (action : LifecycleAction)
    (event : LifecycleTimelineEvent) (key now : String)
    → lookup (append_receipt client case_urn action event key now).0.receipts_by_key key
      ≡ some (append_receipt client case_urn action event key now).1
unfolding append_receipt
append_receipt-kept client case_urn action event key now =
    lookup-insert (snapshot_for client case_urn now).0.receipts_by_key key
      (append_receipt client case_urn action event key now).1 key
    ∙ rw ((eq_iff key key).1 refl) refl

ended :
    {A P : Type 0} {message : String} {x : A} → ◌≡◌ {A = Result String A} (err message) (ok x) → P
ended h = cc

same_ok : {A : Type 0} {x y : A} → ◌≡◌ {A = Result String A} (ok x) (ok y) → x ≡ y
same_ok h = cc

module _ (is_uuid_v7 : String → Bool) (action : LifecycleAction) (prefix : String)
    (body_of : LifecycleActionSnapshot → Result String EventBody) where
  pub submit-Grows :
      (client : Client) (case_urn key now : String)
      → Grows client (submit is_uuid_v7 action prefix body_of client case_urn key now).0
  unfolding submit
  submit-Grows client case_urn key now = elim (Bool-cases (is_uuid_v7 key)) [
    | inr bad ↦ rw (submit, bad) (Grows-refl client)
    | inl good ↦ elim (Option-cases (lookup client.receipts_by_key key)) [
      | inr (receipt, e) ↦ rw (submit, good, e) (Grows-refl client)
      | inl new ↦
          let opened = (snapshot_for client case_urn now).0 in
          let (found, same) = snapshot_for-found client case_urn now in
          let first = snapshot_for-Grows client case_urn now in
          elim (Result-cases (body_of (snapshot_for client case_urn now).1)) [
            | inr (error, e) ↦ rw (submit, good, new, e) first
            | inl (body, e) ↦
                rw (submit, good, new, e)
                  (Grows-trans client (record opened { next_event = suc opened.next_event }) _
                    (record { events = first.events; receipts = first.receipts })
                    (append_receipt-Grows (record opened { next_event = suc opened.next_event })
                      case_urn action _ key now (ap (λ m. lookup m key) same ∙ new)))
          ]
    ]
  ]

  -- A receipt that a submission gives is kept under its key.
  pub submit-kept :
      (client : Client) (case_urn key now : String) (receipt : LifecycleActionReceipt)
      → (submit is_uuid_v7 action prefix body_of client case_urn key now).1 ≡ ok receipt
      → (is_uuid_v7 key ≡ true)
        × (lookup
              (submit is_uuid_v7 action prefix body_of client case_urn key now).0.receipts_by_key
              key
            ≡ some receipt)
  unfolding submit
  submit-kept client case_urn key now receipt h = elim (Bool-cases (is_uuid_v7 key)) [
    | inr bad ↦ ended (rw (submit, bad) at h)
    | inl good ↦ elim (Option-cases (lookup client.receipts_by_key key)) [
      | inr (existing, e) ↦
          rw (submit, good, e) (refl, e ∙ ap some (same_ok (rw (submit, good, e) at h)))
      | inl new ↦ elim (Result-cases (body_of (snapshot_for client case_urn now).1)) [
        | inr (error, e) ↦ ended (rw (submit, good, new, e) at h)
        | inl (body, e) ↦
            rw (submit, good, new, e)
              (
                refl,
                append_receipt-kept _ case_urn action _ key now
                    ∙ ap some (same_ok (rw (submit, good, new, e) at h)),
              )
      ]
    ]
  ]

  pub submit-replayed :
      (client : Client) (case_urn key now : String) (receipt : LifecycleActionReceipt)
      → is_uuid_v7 key ≡ true
      → lookup client.receipts_by_key key ≡ some receipt
      → submit is_uuid_v7 action prefix body_of client case_urn key now ≡ (client, ok receipt)
  unfolding submit
  submit-replayed client case_urn key now receipt good kept = rw (good, kept) refl
