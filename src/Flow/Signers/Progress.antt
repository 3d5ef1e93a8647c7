-- ===== src/Flow/Signers/Progress.antt =====
-- Enough signers complete a form.
use mathlib.Core.Path.{subst}
use Prim.Native.String
use formspec_web.Shared.IdempotencyKey.{hex}
use formspec_web.Common.{
  ℕ, ◌<◌, ◌≤◌, String, ◌≡◌, refl, ap, sym, ◌∙◌, inl, inr, true, false, some, List, [], ◌∷◌, ◌++◌,
  map, Result, ok, ◌>>=◌, All, all, includes, length, str_eq, eq_iff, arith, Bool-cases, IsDistinct,
  includes-append, map-append, if◌then◌else◌,
}
use formspec_web.Js.{Value}
use formspec_web.Flow.Identity.{IdentityClaim}
use formspec_web.Flow.Signers.{
  MultiPartyPartySlot, MultiPartySignatureRecord, MultiPartyPersistedState,
  required_multi_party_slots, has_signed, multi_party_complete, response_hash, signature_of,
  record_multi_party_signer, record_multi_party_signer_state,
}
use formspec_web.Flow.Signers.Steps.{
  any-find, find-some, not_elsewhere, open_slots, open_slots_lt, CanSubmit, CanSubmit-assert,
}
use formspec_web.Flow.Signers.Reachable.{
  subjects_of, Reachable, signing, signed, Reachable-IsConsistent,
}

open_slots_complete :
    (signatures : List MultiPartySignatureRecord) (slots : List MultiPartyPartySlot)
    → open_slots signatures slots ≤ 0
    → all (λ slot. has_signed signatures slot.party_ref) slots ≡ true
unfolding open_slots
open_slots_complete signatures [] h = refl
open_slots_complete signatures (slot ∷ slots) h =
    ground (arith, open_slots_complete signatures slots)

module _ (digest : List ℕ → List ℕ) (canonical : Value → Result String (List ℕ))
    (policy : Value) where
  -- While a form is not complete, a signature of somebody who has not signed, on a response that has
  -- canonical bytes, is recorded: one slot or more that was open is open no longer.
  pub record_multi_party_signer_state-progress :
      (state : MultiPartyPersistedState) (claim : IdentityClaim) (key now : String)
      (response : Value) (bytes : List ℕ)
      → canonical response ≡ ok bytes
      → Reachable (some digest) canonical policy state
      → multi_party_complete policy state.progress ≡ false
      → includes (subjects_of state.progress.signatures) claim.subject_ref ≡ false
      → (after : MultiPartyPersistedState) × (record_multi_party_signer_state
            (some digest)
            canonical
            (some claim)
            key
            policy
            response
            state
            now
          ≡ ok after)
        × (open_slots after.progress.signatures (required_multi_party_slots policy)
            < open_slots state.progress.signatures (required_multi_party_slots policy))
        × (subjects_of after.progress.signatures
            ≡ subjects_of state.progress.signatures ++ claim.subject_ref ∷ [])
  unfolding record_multi_party_signer_state record_multi_party_signer response_hash
  record_multi_party_signer_state-progress state claim key now response bytes encoded reached
        incomplete fresh =
      let consistent = Reachable-IsConsistent (some digest) canonical policy state reached in
      let slots = required_multi_party_slots policy in
      let signatures = state.progress.signatures in
      let active = state.progress.active_party_ref in
      let unsigned : has_signed signatures active ≡ false =
        ground (arith, consistent.finished, incomplete) in
      let (slot, found) = any-find (λ s. str_eq s.party_ref active) slots consistent.turn in
      let can : CanSubmit policy state.progress claim slot = record {
        unsigned = unsigned;
        elsewhere = not_elsewhere signatures claim.subject_ref active fresh;
        found = found;
      } in
      let (at, among) =
        find-some (λ x. str_eq x.party_ref active) (λ x. str_eq x.party_ref slot.party_ref) slots
          slot found ((eq_iff slot.party_ref slot.party_ref).1 refl) in
      let new : has_signed signatures slot.party_ref ≡ false =
        ap (has_signed signatures) ((eq_iff slot.party_ref active).0 at) ∙ unsigned in
      let hash = String.◌++◌ "sha256:" (hex (digest bytes)) in
      let s = signature_of (some digest) canonical slot claim key response hash now in
      (
        signed (some digest) canonical policy state slot s response,
        rw
            (
              record_multi_party_signer,
              CanSubmit-assert policy state.progress claim slot can,
              response_hash,
              encoded,
            )
            refl,
        open_slots_lt signatures s slots among new,
        map-append (λ x. x.subject_ref) signatures s,
      )

  -- The response has canonical bytes.
  abbrev pub IsEncodable : Value → Type 0
  IsEncodable response = (bytes : List ℕ) × (canonical response ≡ ok bytes)

  -- One signer after another, each with a response, until the form is complete.
  pub record Signing : Type 0 where
    pub claim : IdentityClaim
    pub key : String
    pub response : Value
    pub now : String

  unfoldable pub sign_each :
      List Signing → MultiPartyPersistedState → Result String MultiPartyPersistedState
  sign_each [] state = ok state
  sign_each (x ∷ xs) state =
      if multi_party_complete policy state.progress
      then ok state
      else record_multi_party_signer_state (some digest) canonical (some x.claim) x.key policy
          x.response state x.now
        >>= sign_each xs

  still_fresh :
      (subjects : List String) (subject : String) (xs : List Signing)
      → includes (map (λ x. x.claim.subject_ref) xs) subject ≡ false
      → All (λ x. includes subjects x.claim.subject_ref ≡ false) xs
      → All (λ x. includes (subjects ++ subject ∷ []) x.claim.subject_ref ≡ false) xs
  still_fresh subjects subject [] other h = tt
  still_fresh subjects subject (x ∷ xs) other (here, h) = (
    ground (
      arith,
      includes-append subjects subject x.claim.subject_ref,
      eq_iff subject x.claim.subject_ref,
      eq_iff x.claim.subject_ref subject,
    ),
    still_fresh subjects subject xs (ground arith) h,
  )

  -- From any state that signatures lead to: if there are as many signers as open slots, all distinct,
  -- none of them has signed yet and their responses have canonical bytes, then letting them sign one
  -- after another succeeds and completes the form.
  pub sign_each_complete :
      (xs : List Signing) (state : MultiPartyPersistedState)
      → Reachable (some digest) canonical policy state
      → All (λ x. includes (subjects_of state.progress.signatures) x.claim.subject_ref ≡ false) xs
      → IsDistinct (map (λ x. x.claim.subject_ref) xs)
      → All (λ x. IsEncodable x.response) xs
      → open_slots state.progress.signatures (required_multi_party_slots policy) ≤ length xs
      → (after : MultiPartyPersistedState) × (sign_each xs state ≡ ok after)
        × (multi_party_complete policy after.progress ≡ true)
        × Reachable (some digest) canonical policy after
  unfolding sign_each multi_party_complete
  sign_each_complete [] state reached fresh distinct encodable enough = (
    state,
    refl,
    open_slots_complete state.progress.signatures (required_multi_party_slots policy) enough,
    reached,
  )
  sign_each_complete (x ∷ xs) state reached (here, fresh) (other, distinct)
        ((bytes, encoded), encodable) enough =
      elim (Bool-cases (multi_party_complete policy state.progress)) [
        | inl e ↦ (state, rw (sign_each, e) refl, e, reached)
        | inr e ↦
            let (next, made, fewer, grown) =
              record_multi_party_signer_state-progress state x.claim x.key x.now x.response bytes
                encoded reached e here in
            let fresh_next =
              subst (λ subjects. All (λ y. includes subjects y.claim.subject_ref ≡ false) xs)
                (sym grown)
                (still_fresh (subjects_of state.progress.signatures) x.claim.subject_ref xs other
                  fresh) in
            let (after, run, complete, there) =
              sign_each_complete xs next
                (signing state next (some x.claim) x.key x.now x.response reached made) fresh_next
                distinct encodable (omega arith) in
            (after, rw (sign_each, e, made) run, complete, there)
      ]
