-- ===== src/Flow/Signers/Drafts.antt =====
-- The state of the signers in a draft, and the response that all of them submit
-- (src/app/respondent-flow.ts, multiPartyStateFromDraft, multiPartyStateDraftResponse,
-- buildMultiPartyAggregateResponse and the two tests of stored records).
use Prim.Native.String
use formspec_web.Common.{
  String, Bool, not, ◌&&◌, none, some, List, [], ◌∷◌, map, Result, ok, err, ◌>>=◌, filter, find,
  any, str_eq, if◌then◌else◌,
}
use formspec_web.Js.{
  Value, str, arr, obj, end, field, of_list, is_plain_object, is_string, is_str, elements, prop,
  put, spread, fields_of, Fields,
}
use formspec_web.Policy.MultiParty.{text_of}
use formspec_web.Flow.Signers.{
  MultiPartyPartySlot, MultiPartySignatureRecord, MultiPartyStoredResponse,
  MultiPartyPersistedState, required_multi_party_slots, first_slot,
  create_multi_party_persisted_state,
}

-- The properties of a signature, as they are stored.
abbrev pub signature_value : MultiPartySignatureRecord → Value
signature_value s = obj (
    field "partyRef" (str s.party_ref) (
      field "roleId" (str s.role_id) (
        field "subjectRef" (str s.subject_ref) (
          field "responseRef" (str s.response_ref) (
            field "responseHash" (str s.response_hash) (field "signedAt" (str s.signed_at) end))))))

abbrev pub stored_value : MultiPartyStoredResponse → Value
stored_value entry =
    obj (field "partyRef" (str entry.party_ref) (field "response" entry.response end))

unfoldable pub multi_party_state_draft_response : Value → MultiPartyPersistedState → String → Value
multi_party_state_draft_response definition state now = obj (
    field "$formspecResponse" (str "1.0") (
      field "definitionUrl" (prop definition "url") (
        field "definitionVersion" (prop definition "version") (
          field "status" (str "in-progress") (
            field "data"
              (obj (
                field "x-formspec-multi-party"
                  (obj (
                    field "activePartyRef" (str state.progress.active_party_ref) (
                      field "signatures"
                        (arr (of_list (map signature_value state.progress.signatures)))
                        (field "responses" (arr (of_list (map stored_value state.responses)))
                          end))))
                  end))
              (field "authored" (str now) end))))))

unfoldable pub is_multi_party_signature_record : Value → Bool
is_multi_party_signature_record value =
    is_plain_object value
    && (is_string (prop value "partyRef")
        && (is_string (prop value "roleId")
            && (is_string (prop value "subjectRef")
                && (is_string (prop value "responseRef")
                    && (is_string (prop value "responseHash")
                        && is_string (prop value "signedAt"))))))

unfoldable pub is_multi_party_stored_response : Value → Bool
is_multi_party_stored_response value =
    is_plain_object value
    && (is_string (prop value "partyRef")
        && (is_plain_object (prop value "response")
            && is_str (prop (prop value "response") "$formspecResponse") "1.0"))

-- The record that a value is, once the test has taken it for one.
abbrev pub signature_from : Value → MultiPartySignatureRecord
signature_from value = record {
  party_ref = text_of (prop value "partyRef");
  role_id = text_of (prop value "roleId");
  subject_ref = text_of (prop value "subjectRef");
  response_ref = text_of (prop value "responseRef");
  response_hash = text_of (prop value "responseHash");
  signed_at = text_of (prop value "signedAt");
}

abbrev pub stored_from : Value → MultiPartyStoredResponse
stored_from value = record {
  party_ref = text_of (prop value "partyRef");
  response = prop value "response";
}

-- `slotRefs.has(ref)`
abbrev pub is_slot_ref : List MultiPartyPartySlot → String → Bool
is_slot_ref slots ref = any (λ slot. str_eq slot.party_ref ref) slots

-- The active party of a draft: its own if it is a slot's, or the first slot's. An empty text is no
-- party.
abbrev pub active_of_draft : List MultiPartyPartySlot → Value → String
active_of_draft slots candidate =
    if is_string candidate && is_slot_ref slots (text_of candidate)
    then text_of candidate
    else elim (first_slot slots) [ none ↦ "" | some slot ↦ slot.party_ref ]

unfoldable pub multi_party_state_from_draft : Value → Value → Result String MultiPartyPersistedState
multi_party_state_from_draft response policy =
    let raw = prop (prop response "data") "x-formspec-multi-party" in
    let slots = required_multi_party_slots policy in
    let active = active_of_draft slots (prop raw "activePartyRef") in
    if not (is_plain_object raw)
    then create_multi_party_persisted_state policy
    else if str_eq active ""
    then create_multi_party_persisted_state policy
    else ok (record {
      progress = record {
        active_party_ref = active;
        signatures =
            filter (λ s. is_slot_ref slots s.party_ref)
              (map signature_from
                (filter is_multi_party_signature_record (elements (prop raw "signatures"))));
      };
      responses =
          filter (λ entry. is_slot_ref slots entry.party_ref)
            (map stored_from
              (filter is_multi_party_stored_response (elements (prop raw "responses"))));
    })

-- A signature with the response that its party stored.
pub record SignedResponse : Type 0 where
  pub party_ref : String
  pub role_id : String
  pub subject_ref : String
  pub response : Value

abbrev pub signed_response :
    List MultiPartyStoredResponse → MultiPartySignatureRecord → Result String SignedResponse
signed_response responses signature =
    elim (find (λ entry. str_eq entry.party_ref signature.party_ref) responses) [
      | none ↦ err (
          String.◌++◌ (String.◌++◌ "Missing response slice for party \"" signature.party_ref) "\".")
      | some stored ↦ ok (record {
        party_ref = signature.party_ref;
        role_id = signature.role_id;
        subject_ref = signature.subject_ref;
        response = stored.response;
      })
    ]

-- The loop over the signatures.
unfoldable pub signed_responses :
    List MultiPartyStoredResponse
    → List MultiPartySignatureRecord
    → Result String (List SignedResponse)
signed_responses responses [] = ok []
signed_responses responses (signature ∷ signatures) = do
  entry ← signed_response responses signature
  entries ← signed_responses responses signatures
  ok (entry ∷ entries)

-- `Object.assign(target, ...entries.map((entry) => entry.response.data))`
abbrev pub assign_data : Fields → List SignedResponse → Fields
assign_data target [] = target
assign_data target (entry ∷ entries) =
    assign_data (spread target (fields_of (prop entry.response "data"))) entries

-- A party in the submitted data, and in the extensions.
abbrev pub party_data : SignedResponse → Value
party_data entry = obj (
    field "partyRef" (str entry.party_ref) (
      field "roleId" (str entry.role_id) (
        field "subjectRef" (str entry.subject_ref) (
          field "responseId" (prop entry.response "id")
            (field "responseData" (prop entry.response "data") end)))))

abbrev pub party_response : SignedResponse → Value
party_response entry = obj (
    field "partyRef" (str entry.party_ref) (
      field "roleId" (str entry.role_id)
        (field "subjectRef" (str entry.subject_ref) (field "response" entry.response end))))

abbrev pub parties_block : List MultiPartySignatureRecord → List Value → Value
parties_block signatures parties = obj (
    field "partySignatures" (arr (of_list (map signature_value signatures)))
      (field "partyResponses" (arr (of_list parties)) end))

abbrev pub aggregate :
    Value → String → List MultiPartySignatureRecord → String → List SignedResponse → Value
aggregate definition id signatures now entries = obj (
    field "$formspecResponse" (str "1.0") (
      field "definitionUrl" (prop definition "url") (
        field "definitionVersion" (prop definition "version") (
          field "status" (str "completed") (
            field "id" (str id) (
              field "data"
                (obj (
                  put (assign_data end entries) "x-formspec-multi-party"
                    (parties_block signatures (map party_data entries))))
                (field "authored" (str now) (
                  field "extensions"
                    (obj (
                      field "x-formspec-multi-party"
                        (parties_block signatures (map party_response entries)) end))
                    end))))))))

unfoldable pub build_multi_party_aggregate_response :
    Value → String → MultiPartyPersistedState → String → Result String Value
build_multi_party_aggregate_response definition id state now = do
  entries ← signed_responses state.responses state.progress.signatures
  ok (aggregate definition id state.progress.signatures now entries)
