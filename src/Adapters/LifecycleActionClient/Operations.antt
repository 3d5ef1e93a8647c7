-- ===== src/Adapters/LifecycleActionClient/Operations.antt =====
-- The operations of the in-memory client of lifecycle actions
-- (src/adapters/stub/lifecycle-action-client.ts). The uuid package's check is a parameter.
use Prim.Native.String
use formspec_web.Common.{
  suc, String, Bool, not, ◌&&◌, Option, none, some, List, [], ◌∷◌, ◌++◌, Result, ok, err, ◌>>=◌,
  ◌>>◌, throw_if, all, includes, is_empty, lookup, insert, str_eq, or_else, or_option,
  if◌then◌else◌,
}
use formspec_web.Adapters.LifecycleActionClient.{
  LifecycleAction, correct, withdraw, dispute, LifecycleChangedField, PartyScope, RecordedAs,
  correction, amendment, EventBody, original_submission, corrected, withdrawn, disputed,
  LifecycleTimelineEvent, LifecycleActionSnapshot, LifecycleActionReceipt, Client, default_actions,
  event_id_of, is_blank, assert_action_enabled, assert_changed_fields, assert_reason_if_required,
  assert_evidence_if_required, assert_signer_scope, assert_party_scope, assert_rescission_policy,
  introduces_new_field,
}

pub record CorrectionRequest : Type 0 where
  pub case_urn : String
  pub party_ref : Option String
  pub changed_fields : List LifecycleChangedField
  pub reason : Option String
  pub evidence_refs : Option (List String)
  pub correctable_field_set : Option (List String)
  pub case_decision_reached : Bool

pub record WithdrawalRequest : Type 0 where
  pub case_urn : String
  pub party_ref : Option String
  pub reason : Option String
  pub party_scope : Option PartyScope
  pub all_parties_approved : Bool
  pub rescission_requested : Bool

pub record DisputeRequest : Type 0 where
  pub case_urn : String
  pub party_ref : Option String
  pub actor_ref : Option String
  pub disputed_event_id : Option String
  pub statement : String

abbrev pub empty_client : Client
empty_client = record { snapshots = []; receipts_by_key = []; next_event = 0 }

unfoldable pub register_lifecycle : Client → LifecycleActionSnapshot → Client
register_lifecycle client snapshot = record client {
  snapshots = insert client.snapshots snapshot.case_urn snapshot;
}

-- The client with its initial snapshots.
unfoldable pub registered : Client → List LifecycleActionSnapshot → Client
registered client [] = client
registered client (snapshot ∷ snapshots) = registered (register_lifecycle client snapshot) snapshots

unfoldable pub read_lifecycle : Client → String → Option LifecycleActionSnapshot
read_lifecycle client case_urn = lookup client.snapshots case_urn

-- The snapshot of a case, made where there is none, with the original submission for its history.
abbrev pub new_snapshot : Client → String → String → LifecycleActionSnapshot
new_snapshot client case_urn now = record {
  case_urn = case_urn;
  actions = default_actions;
  events =
      record {
        event_id = event_id_of "original" (suc client.next_event);
        occurred_at = "2026-05-23T12:00:00.000Z";
        body = original_submission;
      }
      ∷ [];
  updated_at = now;
}

unfoldable pub snapshot_for : Client → String → String → Client × LifecycleActionSnapshot
snapshot_for client case_urn now = elim (lookup client.snapshots case_urn) [
  | some existing ↦ (client, existing)
  | none ↦
      let created = new_snapshot client case_urn now in
      (
        record client {
          snapshots = insert client.snapshots case_urn created;
          next_event = suc client.next_event;
        },
        created,
      )
]

unfoldable pub append_receipt :
    Client
    → String
    → LifecycleAction
    → LifecycleTimelineEvent
    → String
    → String
    → Client × LifecycleActionReceipt
append_receipt client case_urn action event key now =
    let (opened, current) = snapshot_for client case_urn now in
    let snapshot : LifecycleActionSnapshot = record current {
      events = current.events ++ event ∷ [];
      updated_at = event.occurred_at;
    } in
    let receipt : LifecycleActionReceipt = record {
      action = action;
      event = event;
      snapshot = snapshot;
      support_ref = String.◌++◌ "lifecycle-" event.event_id;
    } in
    (
      record opened {
        snapshots = insert opened.snapshots case_urn snapshot;
        receipts_by_key = insert opened.receipts_by_key key receipt;
      },
      receipt,
    )

-- `text ? { text } : undefined`
abbrev pub given : Option String → Option String
given none = none
given (some text) = if str_eq text "" then none else some text

-- A change of declared fields before the case is decided is a correction, any other an amendment.
abbrev pub recorded_as : List String → CorrectionRequest → RecordedAs
recorded_as declared request =
    if all (λ f. includes declared f.path) request.changed_fields
      && (not request.case_decision_reached && not (introduces_new_field request.changed_fields))
    then correction
    else amendment

unfoldable pub correction_body :
    List String → CorrectionRequest → LifecycleActionSnapshot → Result String EventBody
correction_body correctable_field_set request snapshot = do
  action ← assert_action_enabled snapshot correct
  assert_changed_fields request.changed_fields
  assert_reason_if_required action request.reason "Correction reason is required"
  assert_evidence_if_required action request.evidence_refs
  let declared =
      or_else (or_option request.correctable_field_set action.correctable_field_set)
        correctable_field_set
  throw_if (is_empty declared) "Correction field set is not declared for this record"
  ok (
      corrected (record {
        party_ref = request.party_ref;
        recorded_as = recorded_as declared request;
        changed_fields = request.changed_fields;
        reason = given request.reason;
        evidence_refs = request.evidence_refs;
      }))

unfoldable pub withdrawal_body :
    WithdrawalRequest → LifecycleActionSnapshot → Result String EventBody
withdrawal_body request snapshot = do
  action ← assert_action_enabled snapshot withdraw
  assert_reason_if_required action request.reason "Withdrawal reason is required"
  assert_party_scope action request.party_scope request.all_parties_approved
  assert_rescission_policy action request.rescission_requested
  ok (
      withdrawn (record {
        party_ref = request.party_ref;
        reason = given request.reason;
        rescission_requested = request.rescission_requested;
        requires_issuer_acceptance = request.rescission_requested;
      }))

unfoldable pub dispute_body :
    List String → DisputeRequest → LifecycleActionSnapshot → Result String EventBody
dispute_body signer_refs request snapshot = do
  action ← assert_action_enabled snapshot dispute
  assert_signer_scope action request.actor_ref signer_refs
  throw_if (is_blank request.statement) "Dispute statement is required"
  ok (
      disputed (record {
        party_ref = request.party_ref;
        disputed_event_id = request.disputed_event_id;
        statement = request.statement;
      }))

module _ (is_uuid_v7 : String → Bool) where
  -- What the three submissions share: the key, its receipt if it has one, the case's snapshot, the
  -- body that the checks of the action give, the next event id, and the receipt.
  unfoldable pub submit :
      LifecycleAction
      → String
      → (LifecycleActionSnapshot → Result String EventBody)
      → Client
      → String
      → String
      → String
      → Client × Result String LifecycleActionReceipt
  submit action prefix body_of client case_urn key now =
      if not (is_uuid_v7 key)
      then (client, err "Expected idempotency-key to be a UUIDv7 value")
      else elim (lookup client.receipts_by_key key) [
        | some existing ↦ (client, ok existing)
        | none ↦
            let (opened, snapshot) = snapshot_for client case_urn now in
            elim (body_of snapshot) [
              | err error ↦ (opened, err error)
              | ok body ↦
                  let event : LifecycleTimelineEvent = record {
                    event_id = event_id_of prefix (suc opened.next_event);
                    occurred_at = now;
                    body = body;
                  } in
                  let (last, receipt) =
                    append_receipt (record opened { next_event = suc opened.next_event }) case_urn
                      action event key now in
                  (last, ok receipt)
            ]
      ]

  unfoldable pub submit_correction :
      List String
      → Client
      → CorrectionRequest
      → String
      → String
      → Client × Result String LifecycleActionReceipt
  submit_correction correctable_field_set client request key now =
      submit correct "correction" (correction_body correctable_field_set request) client
        request.case_urn key now

  unfoldable pub submit_withdrawal :
      Client → WithdrawalRequest → String → String → Client × Result String LifecycleActionReceipt
  submit_withdrawal client request key now =
      submit withdraw "withdrawal" (withdrawal_body request) client request.case_urn key now

  unfoldable pub submit_dispute :
      List String
      → Client
      → DisputeRequest
      → String
      → String
      → Client × Result String LifecycleActionReceipt
  submit_dispute signer_refs client request key now =
      submit dispute "dispute" (dispute_body signer_refs request) client request.case_urn key now
