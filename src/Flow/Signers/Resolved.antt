-- ===== src/Flow/Signers/Resolved.antt =====
-- From the resolver's profile to the response that all parties submit.
use formspec_web.Common.{
  ℕ, ◌≤◌, Result, String, ◌≡◌, refl, sym, true, false, Option, some, List, [], ◌∷◌, map, ok, All,
  length, includes, arith, IsDistinct,
}
use mathlib.Core.Path.{subst}
use formspec_web.Js.{Value, prop, elements}
use formspec_web.Policy.FeatureKeys.{multi_party, has_key}
use formspec_web.Policy.Shapes.{ResolvedRuntimeProfile}
use formspec_web.Policy.Validate.{ResolveInput}
use formspec_web.Policy.Resolver.{resolve_runtime_features}
use formspec_web.Policy.Resolver.Profile.{resolve_configs}
use formspec_web.Policy.MultiParty.Party.{IsParty}
use formspec_web.Policy.MultiParty.WellFormed.{IsMultiPartyConfig}
use formspec_web.Flow.Signers.{
  MultiPartyPartySlot, MultiPartyPersistedState, slots_of_parties, required_multi_party_slots,
  first_slot, create_multi_party_signer_progress, create_multi_party_persisted_state,
  multi_party_complete,
}
use formspec_web.Flow.Signers.Drafts.{
  SignedResponse, aggregate, build_multi_party_aggregate_response,
}
use formspec_web.Flow.Signers.Steps.{open_slots}
use formspec_web.Flow.Signers.Reachable.{start, refs_of, subjects_of}
use formspec_web.Flow.Signers.Progress.{Signing, IsEncodable, sign_each, sign_each_complete}
use formspec_web.Flow.Signers.RoundTrip.{build_multi_party_aggregate_response-total}

open_slots_bound : (slots : List MultiPartyPartySlot) → open_slots [] slots ≤ length slots
unfolding open_slots
open_slots_bound [] = omega arith
open_slots_bound (slot ∷ slots) = ground (arith, open_slots_bound slots)

first_of_party :
    (party : Value) (parties : List Value)
    → IsParty party
    → (slot : MultiPartyPartySlot) × (first_slot (slots_of_parties (party ∷ parties)) ≡ some slot)
first_of_party party parties h = let (n, min, bound) = h.cardinality.1 in rw min (_, refl)

first_of_parties :
    (parties : List Value)
    → 2 ≤ length parties
    → All IsParty parties
    → (slot : MultiPartyPartySlot) × (first_slot (slots_of_parties parties) ≡ some slot)
first_of_parties [] two h = absurd (omega arith)
first_of_parties (party ∷ parties) two h = first_of_party party parties h.0

first_required :
    (policy : Value)
    → IsMultiPartyConfig policy
    → (slot : MultiPartyPartySlot) × (first_slot (required_multi_party_slots policy) ≡ some slot)
unfolding required_multi_party_slots
first_required policy h = first_of_parties (elements (prop policy "parties")) h.two h.parties

-- A well-formed configuration has a first state, in which nobody has signed.
created :
    (policy : Value)
    → IsMultiPartyConfig policy
    → (state : MultiPartyPersistedState) × (create_multi_party_persisted_state policy ≡ ok state)
      × (state.progress.signatures ≡ [])
unfolding create_multi_party_persisted_state create_multi_party_signer_progress
created policy h =
    let (slot, found) = first_required policy h in
    (
      record {
        progress = record { active_party_ref = slot.party_ref; signatures = [] };
        responses = [];
      },
      rw (create_multi_party_persisted_state, create_multi_party_signer_progress, found) refl,
      refl,
    )

nobody_before :
    {A : Type 0} (f : A → String) (xs : List A) → All (λ x. includes [] (f x) ≡ false) xs
nobody_before f [] = tt
nobody_before f (x ∷ xs) = (refl, nobody_before f xs)

-- In a profile that resolves with the multi-party feature on, and a browser that hashes: if as many
-- distinct identities come as there are slots, each with a response that has canonical bytes, then the
-- first state is made, letting them sign one after another completes the form, and the aggregate response
-- is built from one slice for each signature.
pub resolved_signers_complete :
    (origin_of : String → Option String) (input : ResolveInput) (profile : ResolvedRuntimeProfile)
    (digest : List ℕ → List ℕ) (canonical : Value → Result String (List ℕ)) (definition : Value)
    (id now : String) (xs : List (Signing digest canonical profile.multi_party))
    → resolve_runtime_features origin_of input ≡ ok profile
    → has_key profile.enabled multi_party ≡ true
    → IsDistinct (map (λ x. x.claim.subject_ref) xs)
    → All (λ x. IsEncodable digest canonical profile.multi_party x.response) xs
    → length (required_multi_party_slots profile.multi_party) ≤ length xs
    → (state : MultiPartyPersistedState) × (after : MultiPartyPersistedState) × (entries : List
        SignedResponse)
      × (create_multi_party_persisted_state profile.multi_party ≡ ok state)
      × (sign_each digest canonical profile.multi_party xs state ≡ ok after)
      × (multi_party_complete profile.multi_party after.progress ≡ true)
      × (build_multi_party_aggregate_response definition id after now
          ≡ ok (aggregate definition id after.progress.signatures now entries))
      × (map (λ e. e.party_ref) entries ≡ refs_of after.progress.signatures)
resolved_signers_complete origin_of input profile digest canonical definition id now xs resolved on
      distinct encodable enough =
    let policy = profile.multi_party in
    let (state, made, nobody) =
      created policy ((resolve_configs origin_of input profile resolved).0 on) in
    let fresh =
      subst
        (λ signatures. All (λ x. includes (subjects_of signatures) x.claim.subject_ref ≡ false) xs)
        (sym nobody) (nobody_before (λ x. x.claim.subject_ref) xs) in
    let room : open_slots state.progress.signatures (required_multi_party_slots policy)
        ≤ length xs =
      subst (λ signatures. open_slots signatures (required_multi_party_slots policy) ≤ length xs)
        (sym nobody) (omega (arith, open_slots_bound (required_multi_party_slots policy))) in
    let (after, run, complete, reached) =
      sign_each_complete digest canonical policy xs state (start state made) fresh distinct
        encodable room in
    let (entries, built, refs) =
      build_multi_party_aggregate_response-total (some digest) canonical policy after definition id
        now reached in
    (state, after, entries, made, run, complete, built, refs)
