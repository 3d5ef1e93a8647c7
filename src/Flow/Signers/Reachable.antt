-- ===== src/Flow/Signers/Reachable.antt =====
-- The states that signatures lead to.
use mathlib.Core.Path.{subst}
use formspec_web.Common.{
  Result, ℕ, String, ◌≡◌, refl, ap, sym, ◌∙◌, inl, inr, Bool, true, false, not, Option, none, some,
  List, [], ◌∷◌, ◌++◌, map, Result, ok, err, All, filter, find, all, str_eq, eq_iff, arith,
  Option-cases, Bool-cases, >>=-eq-ok, IsDistinct, append-IsDistinct, any-append, map-append,
  All-append, any-includes,
}
use formspec_web.Js.{Value}
use formspec_web.Flow.Identity.{IdentityClaim}
use formspec_web.Flow.Signers.{
  MultiPartyPartySlot, MultiPartySignatureRecord, MultiPartyStoredResponse,
  MultiPartyPersistedState, required_multi_party_slots, first_slot,
  create_multi_party_signer_progress, create_multi_party_persisted_state, has_signed,
  assert_multi_party_signer_can_submit, multi_party_complete, ref_or, response_hash, signature_of,
  advanced, record_multi_party_signer, record_multi_party_signer_state,
}
use formspec_web.Flow.Signers.Drafts.{is_slot_ref}
use formspec_web.Flow.Signers.Steps.{
  find-some, find-none, stores, stores-filter, fresh_subject, CanSubmit, assert-CanSubmit,
}

abbrev pub refs_of : List MultiPartySignatureRecord → List String
refs_of signatures = map (λ s. s.party_ref) signatures

abbrev pub subjects_of : List MultiPartySignatureRecord → List String
subjects_of signatures = map (λ s. s.subject_ref) signatures

-- No party and no identity has signed twice; every signature is a slot's and has its response; a slot's
-- turn it is, and it has signed only if all have.
pub record IsConsistent (policy : Value) (state : MultiPartyPersistedState) : Type 0 where
  pub refs : IsDistinct (refs_of state.progress.signatures)
  pub subjects : IsDistinct (subjects_of state.progress.signatures)
  pub signers :
      All
        (λ s. is_slot_ref (required_multi_party_slots policy) s.party_ref ≡ true)
        state.progress.signatures
  pub slices : All (λ s. stores state.responses s.party_ref ≡ true) state.progress.signatures
  pub owners :
      All
        (λ entry. is_slot_ref (required_multi_party_slots policy) entry.party_ref ≡ true)
        state.responses
  pub turn : is_slot_ref (required_multi_party_slots policy) state.progress.active_party_ref ≡ true
  pub finished :
      has_signed state.progress.signatures state.progress.active_party_ref ≡ true
      → multi_party_complete policy state.progress ≡ true

first_slot-is_slot_ref :
    (slots : List MultiPartyPartySlot) (slot : MultiPartyPartySlot)
    → first_slot slots ≡ some slot
    → is_slot_ref slots slot.party_ref ≡ true
first_slot-is_slot_ref [] slot h = cc
first_slot-is_slot_ref (first ∷ slots) slot h =
    ground (arith, eq_iff first.party_ref slot.party_ref)

-- What is stored for a party that has signed stays when another party stores its response.
keep_slices :
    (responses : List MultiPartyStoredResponse) (new : MultiPartyStoredResponse)
    (signatures : List MultiPartySignatureRecord)
    → has_signed signatures new.party_ref ≡ false
    → All (λ s. stores responses s.party_ref ≡ true) signatures
    → All
        (λ s.
          stores
            (filter (λ entry. not (str_eq entry.party_ref new.party_ref)) responses ++ new ∷ [])
            s.party_ref
          ≡ true)
        signatures
keep_slices responses new [] h k = tt
keep_slices responses new (s ∷ signatures) h (here, k) = (
  ground (
    arith,
    stores-filter responses new.party_ref s.party_ref,
    eq_iff new.party_ref s.party_ref,
    eq_iff s.party_ref new.party_ref,
    any-append (λ entry. str_eq entry.party_ref s.party_ref)
        (filter (λ entry. not (str_eq entry.party_ref new.party_ref)) responses) (new ∷ []),
  ),
  keep_slices responses new signatures (ground arith) k,
)

All-filter_keeps :
    {A : Type 0} (P : A → Type 0) (p : A → Bool) (xs : List A) → All P xs → All P (filter p xs)
All-filter_keeps P p [] h = tt
All-filter_keeps P p (x ∷ xs) (q, h) = elim (Bool-cases (p x)) [
  | inl e ↦ rw e (q, All-filter_keeps P p xs h)
  | inr e ↦ rw e (All-filter_keeps P p xs h)
]

-- Whose turn it is after a signature: a slot's that is open, or the signer's if none is.
next_turn :
    (slots : List MultiPartyPartySlot) (signatures : List MultiPartySignatureRecord) (ref : String)
    → is_slot_ref slots ref ≡ true
    → let next = ref_or (find (λ slot. not (has_signed signatures slot.party_ref)) slots) ref in
      (is_slot_ref slots next ≡ true)
      × (has_signed signatures next ≡ true
          → all (λ slot. has_signed signatures slot.party_ref) slots ≡ true)
next_turn slots signatures ref there =
    elim (Option-cases (find (λ slot. not (has_signed signatures slot.party_ref)) slots)) [
      | inl e ↦ rw e (there, λ h. find-none (λ slot. has_signed signatures slot.party_ref) slots e)
      | inr (slot, e) ↦
          let (is_open, among) =
            find-some (λ slot. not (has_signed signatures slot.party_ref))
              (λ x. str_eq x.party_ref slot.party_ref) slots slot e
              ((eq_iff slot.party_ref slot.party_ref).1 refl) in
          rw e (among, λ h. ground (arith, is_open, h))
    ]

module _ (subtle : Option (List ℕ → List ℕ)) (canonical : Value → Result String (List ℕ))
    (policy : Value) where
  -- The states that the signers lead to, in any order, with any claims and responses.
  pub data Reachable : MultiPartyPersistedState → Type 0 where
    start :
        (state : MultiPartyPersistedState)
        → create_multi_party_persisted_state policy ≡ ok state
        → Reachable state
    signing :
        (before after : MultiPartyPersistedState) (claim : Option IdentityClaim) (key now : String)
        (response : Value)
        → Reachable before
        → record_multi_party_signer_state subtle canonical claim key policy response before now
          ≡ ok after
        → Reachable after

  absurd_start :
      (state : MultiPartyPersistedState)
      → (message : String)
      → ◌≡◌ {A = Result String MultiPartyPersistedState} (err message) (ok state)
      → IsConsistent policy state
  absurd_start state message h = cc

  start-IsConsistent :
      (state : MultiPartyPersistedState)
      → create_multi_party_persisted_state policy ≡ ok state
      → IsConsistent policy state
  unfolding create_multi_party_persisted_state create_multi_party_signer_progress
  start-IsConsistent state h =
      elim (Option-cases (first_slot (required_multi_party_slots policy))) [
        | inl e ↦
            absurd_start state _
              (rw (create_multi_party_persisted_state, create_multi_party_signer_progress, e) at h)
        | inr (slot, e) ↦
            let same : record {
              progress = record { active_party_ref = slot.party_ref; signatures = [] };
              responses = [];
            }
                ≡ state =
              ground (arith, e) in
            subst (IsConsistent policy) same (record {
              refs = tt;
              subjects = tt;
              signers = tt;
              slices = tt;
              owners = tt;
              turn = first_slot-is_slot_ref (required_multi_party_slots policy) slot e;
              finished = λ h. cc;
            })
      ]

  -- The state after a signature.
  abbrev pub signed :
      MultiPartyPersistedState
      → MultiPartyPartySlot
      → MultiPartySignatureRecord
      → Value
      → MultiPartyPersistedState
  signed state slot signature response = record {
    progress = advanced subtle canonical policy state.progress slot signature;
    responses =
        filter (λ entry. not (str_eq entry.party_ref state.progress.active_party_ref))
          state.responses
        ++ record { party_ref = state.progress.active_party_ref; response = response } ∷ [];
  }

  signed-IsConsistent :
      (state : MultiPartyPersistedState) (claim : IdentityClaim) (slot : MultiPartyPartySlot)
      (key now hash : String) (response : Value)
      → IsConsistent policy state
      → CanSubmit policy state.progress claim slot
      → IsConsistent policy (
          signed state slot
            (signature_of subtle canonical slot claim key response hash now)
            response)
  unfolding multi_party_complete required_multi_party_slots
  signed-IsConsistent state claim slot key now hash response h can =
      let slots = required_multi_party_slots policy in
      let signatures = state.progress.signatures in
      let active = state.progress.active_party_ref in
      let s = signature_of subtle canonical slot claim key response hash now in
      let (at, among) =
        find-some (λ x. str_eq x.party_ref active) (λ x. str_eq x.party_ref slot.party_ref) slots
          slot can.found ((eq_iff slot.party_ref slot.party_ref).1 refl) in
      let same : slot.party_ref ≡ active = (eq_iff slot.party_ref active).0 at in
      let new : has_signed signatures slot.party_ref ≡ false =
        ap (has_signed signatures) same ∙ can.unsigned in
      let (turn, finished) = next_turn slots (signatures ++ s ∷ []) slot.party_ref among in
      record {
        refs = subst IsDistinct (sym (map-append (λ x. x.party_ref) signatures s)) (
            append-IsDistinct (refs_of signatures) slot.party_ref h.refs
              (sym (any-includes (λ x. x.party_ref) signatures slot.party_ref) ∙ new));
        subjects = subst IsDistinct (sym (map-append (λ x. x.subject_ref) signatures s)) (
            append-IsDistinct (subjects_of signatures) claim.subject_ref h.subjects
              (fresh_subject signatures claim.subject_ref active can.unsigned can.elsewhere));
        signers = All-append _ signatures s h.signers among;
        slices =
            All-append _ signatures s
              (keep_slices state.responses (record { party_ref = active; response = response })
                signatures can.unsigned h.slices)
              (ground (
                arith,
                same,
                eq_iff active slot.party_ref,
                any-append (λ entry. str_eq entry.party_ref slot.party_ref)
                    (filter (λ entry. not (str_eq entry.party_ref active)) state.responses)
                    (record { party_ref = active; response = response } ∷ []),
              ));
        owners =
            All-append _ _ (record { party_ref = active; response = response })
              (All-filter_keeps _ (λ entry. not (str_eq entry.party_ref active)) state.responses
                h.owners)
              h.turn;
        turn = turn;
        finished = finished;
      }

  -- A signature that is recorded comes from a claim that may submit.
  pub recorded :
      (before after : MultiPartyPersistedState) (claim : Option IdentityClaim) (key now : String)
      (response : Value)
      → record_multi_party_signer_state subtle canonical claim key policy response before now
        ≡ ok after
      → (person : IdentityClaim) × (slot : MultiPartyPartySlot) × (hash : String) × CanSubmit policy
          before.progress person slot
        × (after
            ≡ signed before slot
                (signature_of subtle canonical slot person key response hash now)
                response)
  unfolding record_multi_party_signer_state record_multi_party_signer
      assert_multi_party_signer_can_submit
  recorded before after none key now response h = cc
  recorded before after (some person) key now response h =
      let (progress, made, h₁) =
        >>=-eq-ok
          (record_multi_party_signer subtle canonical (some person) key policy before.progress
            response now)
          _ h in
      let (slot, allowed, h₂) =
        >>=-eq-ok (assert_multi_party_signer_can_submit (some person) policy before.progress) _
          made in
      let (hash, hashed, h₃) = >>=-eq-ok (response_hash subtle canonical response) _ h₂ in
      (person, slot, hash, assert-CanSubmit policy before.progress person slot allowed, cc)

  -- In every state that signatures lead to, in whatever order the claims and responses come: no party
  -- and no identity has signed twice, every signature is of a required slot and has a stored response,
  -- and the active party is a required slot that has signed only if all have.
  pub Reachable-IsConsistent :
      (state : MultiPartyPersistedState) → Reachable state → IsConsistent policy state
  Reachable-IsConsistent _ (start state h) = start-IsConsistent state h
  Reachable-IsConsistent _ (signing before after claim key now response earlier h) =
      let (person, slot, hash, can, same) = recorded before after claim key now response h in
      subst (IsConsistent policy) (sym same) (
        signed-IsConsistent before person slot key now hash response
          (Reachable-IsConsistent before earlier) can)
