-- ===== src/Tests/Signers.antt =====
-- Theorems on the signers, at a sale that a buyer and a seller sign.
use formspec_web.Common.{
  ℕ, ◌≤◌, String, ◌≡◌, refl, true, some, List, [], ◌∷◌, map, Result, ok, err, length, decimal,
  arith,
}
use formspec_web.Js.{Value, int, pos, str, arr, obj, nil, cons, end, field, get}
use formspec_web.Flow.Identity.{l2, IdentityClaim}
use formspec_web.Flow.Signers.{
  MultiPartyPersistedState, required_multi_party_slots, create_multi_party_signer_progress,
  create_multi_party_persisted_state, assert_multi_party_signer_can_submit, multi_party_complete,
  record_multi_party_signer, record_multi_party_signer_state, response_hash, label_from_party_ref,
}
use formspec_web.Flow.Signers.Drafts.{
  multi_party_state_draft_response, multi_party_state_from_draft, SignedResponse, aggregate,
  build_multi_party_aggregate_response,
}
use formspec_web.Flow.Signers.Reachable.{
  refs_of, IsConsistent, Reachable, start, signing, Reachable-IsConsistent,
}
use formspec_web.Flow.Signers.Progress.{Signing, sign_each}
use formspec_web.Flow.Signers.Resolved.{resolved_signers_complete}
use formspec_web.Flow.Signers.RoundTrip.{
  multi_party_state_roundtrip, build_multi_party_aggregate_response-total,
}
use formspec_web.Shared.IdempotencyKey.{hex_digit}
use formspec_web.Tests.Samples.{origins, office_input, parties_config}
use formspec_web.Tests.Policy.{resolver, sample, multi_party_on}

label_of_second : label_from_party_ref "co-owner:2" ≡ "Co Owner 2"
unfolding label_from_party_ref
label_of_second = refl

-- A digest, and canonical bytes.
abbrev length_only : List ℕ → List ℕ
length_only bytes = 7 ∷ []

abbrev no_bytes : Value → Result String (List ℕ)
no_bytes (obj fs) = ok []
no_bytes v = err "The response is no object"

abbrev answer : String → Value
answer name = obj (
    field "$formspecResponse" (str "1.0")
      (field "id" (str name) (field "data" (obj (field name (int (pos 1)) end)) end)))

abbrev person : String → IdentityClaim
person subject = record { subject_ref = subject; assurance_level = l2 }

first_state :
    (s : MultiPartyPersistedState) × (create_multi_party_persisted_state parties_config ≡ ok s)
unfolding create_multi_party_persisted_state create_multi_party_signer_progress
    required_multi_party_slots get
first_state = (_, refl)

second_state :
    (s : MultiPartyPersistedState) × (record_multi_party_signer_state
        (some length_only)
        no_bytes
        (some (person "anna"))
        "k1"
        parties_config
        (answer "a")
        first_state.0
        "now"
      ≡ ok s)
unfolding record_multi_party_signer_state record_multi_party_signer
    assert_multi_party_signer_can_submit response_hash required_multi_party_slots first_state get
    hex_digit
second_state = (_, refl)

second_reached : Reachable (some length_only) no_bytes parties_config second_state.0
second_reached =
    signing first_state.0 second_state.0 (some (person "anna")) "k1" "now" (answer "a")
      (start first_state.0 first_state.1) second_state.1

Reachable-IsConsistent_example : IsConsistent parties_config second_state.0
Reachable-IsConsistent_example =
    Reachable-IsConsistent (some length_only) no_bytes parties_config second_state.0 second_reached

same_person_refused :
    record_multi_party_signer_state
      (some length_only)
      no_bytes
      (some (person "anna"))
      "k2"
      parties_config
      (answer "b")
      second_state.0
      "now"
    ≡ err "Each party must sign with a distinct authenticated identity."
unfolding record_multi_party_signer_state record_multi_party_signer
    assert_multi_party_signer_can_submit response_hash required_multi_party_slots first_state
    second_state get hex_digit
same_person_refused = refl

not_encoded :
    record_multi_party_signer_state
      (some length_only)
      no_bytes
      (some (person "ben"))
      "k2"
      parties_config
      (str "b")
      second_state.0
      "now"
    ≡ err "The response is no object"
unfolding record_multi_party_signer_state record_multi_party_signer
    assert_multi_party_signer_can_submit response_hash required_multi_party_slots first_state
    second_state get hex_digit
not_encoded = refl

abbrev both : List (Signing length_only no_bytes sample.0.multi_party)
both =
    record { claim = person "anna"; key = "k1"; response = answer "a"; now = "now" }
    ∷ record { claim = person "ben"; key = "k2"; response = answer "b"; now = "now" }
    ∷ []

two_slots : length (required_multi_party_slots sample.0.multi_party) ≤ 2
unfolding resolver sample required_multi_party_slots
two_slots = omega arith

resolved_signers_complete_example :
    (state : MultiPartyPersistedState) × (after : MultiPartyPersistedState) × (entries : List
      SignedResponse)
    × (create_multi_party_persisted_state sample.0.multi_party ≡ ok state)
    × (sign_each length_only no_bytes sample.0.multi_party both state ≡ ok after)
    × (multi_party_complete sample.0.multi_party after.progress ≡ true)
    × (build_multi_party_aggregate_response (obj end) "k2" after "now"
        ≡ ok (aggregate (obj end) "k2" after.progress.signatures "now" entries))
    × (map (λ e. e.party_ref) entries ≡ refs_of after.progress.signatures)
resolved_signers_complete_example =
    resolved_signers_complete origins office_input sample.0 length_only no_bytes (obj end) "k2"
      "now" both sample.1 multi_party_on (refl, (refl, tt)) (([], refl), (([], refl), tt)) two_slots

-- Two owners and a party whose role is called "owner:1": three slots, two of them under one name.
abbrev owner : String → ℕ → Value
owner id min =
    obj (field "roleId" (str id) (field "cardinality" (obj (field "min" (int (pos min)) end)) end))

same_names :
    map
      (λ slot. slot.party_ref)
      (required_multi_party_slots
        (obj (field "parties" (arr (cons (owner "owner" 2) (cons (owner "owner:1" 1) nil))) end)))
    ≡ "owner:1" ∷ "owner:2" ∷ "owner:1" ∷ []
unfolding required_multi_party_slots get decimal
same_names = refl

multi_party_state_roundtrip_example :
    multi_party_state_from_draft
      (multi_party_state_draft_response (obj end) second_state.0 "now")
      parties_config
    ≡ ok second_state.0
unfolding second_state first_state get required_multi_party_slots
multi_party_state_roundtrip_example =
    multi_party_state_roundtrip (some length_only) no_bytes parties_config second_state.0 (obj end)
      "now" second_reached refl (refl, tt)

build_multi_party_aggregate_response-total_example :
    (entries : List SignedResponse) × (build_multi_party_aggregate_response
        (obj end)
        "k2"
        second_state.0
        "now"
      ≡ ok (aggregate (obj end) "k2" second_state.0.progress.signatures "now" entries))
    × (map (λ e. e.party_ref) entries ≡ refs_of second_state.0.progress.signatures)
build_multi_party_aggregate_response-total_example =
    build_multi_party_aggregate_response-total (some length_only) no_bytes parties_config
      second_state.0 (obj end) "k2" "now" second_reached
