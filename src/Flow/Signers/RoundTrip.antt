-- ===== src/Flow/Signers/RoundTrip.antt =====
-- The signers' state through a draft, and the response that they submit together.
use formspec_web.Common.{
  Result, ℕ, String, ◌≡◌, refl, ap, Bool, true, false, ◌&&◌, Option, List, [], ◌∷◌, map, ok, All,
  filter, str_eq,
}
use formspec_web.Js.{items-of_list, Value, is_plain_object, is_str, prop, get}
use formspec_web.Flow.Signers.{
  MultiPartySignatureRecord, MultiPartyStoredResponse, MultiPartyPersistedState,
  required_multi_party_slots,
}
use formspec_web.Flow.Signers.Drafts.{
  signature_value, stored_value, multi_party_state_draft_response, is_multi_party_signature_record,
  is_multi_party_stored_response, signature_from, stored_from, is_slot_ref,
  multi_party_state_from_draft, SignedResponse, signed_response, signed_responses, aggregate,
  build_multi_party_aggregate_response,
}
use formspec_web.Flow.Signers.Steps.{any-find, stores}
use formspec_web.Flow.Signers.Reachable.{Reachable, Reachable-IsConsistent, refs_of}

filter_same :
    {A : Type 0} (p : A → Bool) (xs : List A) → All (λ x. p x ≡ true) xs → filter p xs ≡ xs
filter_same p [] h = refl
filter_same p (x ∷ xs) (e, h) = rw (e, filter_same p xs h) refl

-- A response of the form that the test of a stored response asks for.
abbrev pub is_form_response : Value → Bool
is_form_response response =
    is_plain_object response && is_str (prop response "$formspecResponse") "1.0"

read_signatures :
    (signatures : List MultiPartySignatureRecord)
    → map signature_from (filter is_multi_party_signature_record (map signature_value signatures))
      ≡ signatures
unfolding is_multi_party_signature_record get
read_signatures [] = refl
read_signatures (s ∷ signatures) = ap (λ rest. s ∷ rest) (read_signatures signatures)

read_responses :
    (responses : List MultiPartyStoredResponse)
    → All (λ entry. is_form_response entry.response ≡ true) responses
    → map stored_from (filter is_multi_party_stored_response (map stored_value responses))
      ≡ responses
unfolding is_multi_party_stored_response get
read_responses [] h = refl
read_responses (entry ∷ responses) (e, h) =
    rw e (ap (λ rest. entry ∷ rest) (read_responses responses h))

module _ (subtle : Option (List ℕ → List ℕ)) (canonical : Value → Result String (List ℕ))
    (policy : Value) where
  -- A state that signatures lead to is the one read back from its draft, if its active party is not the
  -- empty text and what it stores are form responses.
  pub multi_party_state_roundtrip :
      (state : MultiPartyPersistedState) (definition : Value) (now : String)
      → Reachable subtle canonical policy state
      → str_eq state.progress.active_party_ref "" ≡ false
      → All (λ entry. is_form_response entry.response ≡ true) state.responses
      → multi_party_state_from_draft (multi_party_state_draft_response definition state now) policy
        ≡ ok state
  unfolding multi_party_state_from_draft multi_party_state_draft_response get
  multi_party_state_roundtrip state definition now reached named stored =
      let consistent = Reachable-IsConsistent subtle canonical policy state reached in
      let slots = required_multi_party_slots policy in
      rw
        (
          consistent.turn,
          named,
          items-of_list (map signature_value state.progress.signatures),
          read_signatures state.progress.signatures,
          filter_same (λ s. is_slot_ref slots s.party_ref) state.progress.signatures
              consistent.signers,
          items-of_list (map stored_value state.responses),
          read_responses state.responses stored,
          filter_same (λ entry. is_slot_ref slots entry.party_ref) state.responses
              consistent.owners,
        )
        refl

  slices_of :
      (responses : List MultiPartyStoredResponse) (signatures : List MultiPartySignatureRecord)
      → All (λ s. stores responses s.party_ref ≡ true) signatures
      → (entries : List SignedResponse) × (signed_responses responses signatures ≡ ok entries)
        × (map (λ e. e.party_ref) entries ≡ refs_of signatures)
  unfolding signed_responses
  slices_of responses [] h = ([], refl, refl)
  slices_of responses (s ∷ signatures) (here, h) =
      let (entry, found) = any-find (λ e. str_eq e.party_ref s.party_ref) responses here in
      let (entries, rest, refs) = slices_of responses signatures h in
      let slice : SignedResponse = record {
        party_ref = s.party_ref;
        role_id = s.role_id;
        subject_ref = s.subject_ref;
        response = entry.response;
      } in
      (
        slice ∷ entries,
        rw (signed_responses, signed_response, found, rest) refl,
        ap (λ r. s.party_ref ∷ r) refs,
      )

  -- In every state that signatures lead to, the aggregate response is built, without an error, from one
  -- slice for each signature, in their order.
  pub build_multi_party_aggregate_response-total :
      (state : MultiPartyPersistedState) (definition : Value) (id now : String)
      → Reachable subtle canonical policy state
      → (entries : List SignedResponse) × (build_multi_party_aggregate_response definition id state
            now
          ≡ ok (aggregate definition id state.progress.signatures now entries))
        × (map (λ e. e.party_ref) entries ≡ refs_of state.progress.signatures)
  unfolding build_multi_party_aggregate_response
  build_multi_party_aggregate_response-total state definition id now reached =
      let consistent = Reachable-IsConsistent subtle canonical policy state reached in
      let (entries, built, refs) =
        slices_of state.responses state.progress.signatures consistent.slices in
      (entries, rw built refl, refs)
