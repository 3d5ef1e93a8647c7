-- ===== src/Flow/Signers/Steps.antt =====
-- What a successful signature changes.
use formspec_web.Common.{
  ℕ, ◌≤◌, ◌<◌, ◌+◌, String, ◌≡◌, refl, sym, inl, inr, Bool, true, false, not, ◌&&◌, ◌||◌, none,
  some, List, [], ◌∷◌, ◌++◌, map, ok, filter, find, all, any, includes, str_eq, eq_iff, arith,
  Bool-cases, any-append, if◌then◌else◌,
}
use mathlib.Core.Path.{subst}
use formspec_web.Js.{Value}
use formspec_web.Flow.Identity.{IdentityClaim}
use formspec_web.Flow.Signers.{
  MultiPartyPartySlot, MultiPartySignatureRecord, MultiPartySignerProgress,
  MultiPartyStoredResponse, required_multi_party_slots, has_signed, signed_elsewhere,
  assert_multi_party_signer_can_submit,
}

module _ {ℓ} {A : Type ℓ} where
  pub find-some :
      (p q : A → Bool) (xs : List A) (x : A)
      → find p xs ≡ some x
      → q x ≡ true
      → (p x ≡ true) × (any q xs ≡ true)
  find-some p q [] x h k = cc
  find-some p q (y ∷ xs) x h k = elim (Bool-cases (p y)) [
    | inl e ↦
        let same : y ≡ x = ground (arith, h, e) in
        let here : q y ≡ true = subst (λ z. q z ≡ true) (sym same) k in
        (subst (λ z. p z ≡ true) same e, ground (arith, here))
    | inr e ↦ ground (arith, e, find-some p q xs x)
  ]

  pub find-none : (p : A → Bool) (xs : List A) → find (λ x. not (p x)) xs ≡ none → all p xs ≡ true
  find-none p [] h = refl
  find-none p (x ∷ xs) h = ground (arith, find-none p xs)

pub any-find :
    {A : Type 0} (p : A → Bool) (xs : List A) → any p xs ≡ true → (x : A) × (find p xs ≡ some x)
any-find p [] h = cc
any-find p (x ∷ xs) h = elim (Bool-cases (p x)) [
  | inl e ↦ (x, ground (arith, e))
  | inr e ↦ let (y, found) = any-find p xs (ground (arith, e)) in (y, ground (arith, e, found))
]

-- `responses.some((entry) => entry.partyRef === ref)`
abbrev pub stores : List MultiPartyStoredResponse → String → Bool
stores responses ref = any (λ entry. str_eq entry.party_ref ref) responses

pub stores-filter :
    (responses : List MultiPartyStoredResponse) (active ref : String)
    → stores (filter (λ entry. not (str_eq entry.party_ref active)) responses) ref
      ≡ (stores responses ref && not (str_eq active ref))
stores-filter [] active ref = refl
stores-filter (entry ∷ responses) active ref = ground (
  arith,
  stores-filter responses active ref,
  eq_iff entry.party_ref active,
  eq_iff entry.party_ref ref,
  eq_iff active ref,
)

-- Who signed neither for this party nor for another has not signed.
pub fresh_subject :
    (signatures : List MultiPartySignatureRecord) (subject active : String)
    → has_signed signatures active ≡ false
    → signed_elsewhere signatures subject active ≡ false
    → includes (map (λ s. s.subject_ref) signatures) subject ≡ false
fresh_subject [] subject active h k = refl
fresh_subject (s ∷ signatures) subject active h k =
    ground (arith, fresh_subject signatures subject active)

-- And the other way round.
pub not_elsewhere :
    (signatures : List MultiPartySignatureRecord) (subject active : String)
    → includes (map (λ s. s.subject_ref) signatures) subject ≡ false
    → signed_elsewhere signatures subject active ≡ false
not_elsewhere [] subject active h = refl
not_elsewhere (s ∷ signatures) subject active h =
    ground (arith, not_elsewhere signatures subject active)

-- The slots that nobody has signed for.
unfoldable pub open_slots : List MultiPartySignatureRecord → List MultiPartyPartySlot → ℕ
open_slots signatures [] = 0
open_slots signatures (slot ∷ slots) =
    (if has_signed signatures slot.party_ref then 0 else 1) + open_slots signatures slots

has_signed-append :
    (signatures : List MultiPartySignatureRecord) (s : MultiPartySignatureRecord) (ref : String)
    → has_signed (signatures ++ s ∷ []) ref ≡ (has_signed signatures ref || str_eq s.party_ref ref)
has_signed-append signatures s ref =
    ground (arith, any-append (λ x. str_eq x.party_ref ref) signatures (s ∷ []))

open_slots_le :
    (signatures : List MultiPartySignatureRecord) (s : MultiPartySignatureRecord)
    (slots : List MultiPartyPartySlot)
    → open_slots (signatures ++ s ∷ []) slots ≤ open_slots signatures slots
unfolding open_slots
open_slots_le signatures s [] = omega arith
open_slots_le signatures s (slot ∷ slots) =
    ground (arith, open_slots_le signatures s slots, has_signed-append signatures s slot.party_ref)

pub open_slots_lt :
    (signatures : List MultiPartySignatureRecord) (s : MultiPartySignatureRecord)
    (slots : List MultiPartyPartySlot)
    → any (λ slot. str_eq slot.party_ref s.party_ref) slots ≡ true
    → has_signed signatures s.party_ref ≡ false
    → open_slots (signatures ++ s ∷ []) slots < open_slots signatures slots
unfolding open_slots
open_slots_lt signatures s [] h new = cc
open_slots_lt signatures s (slot ∷ slots) h new = ground (
  arith,
  open_slots_lt signatures s slots,
  open_slots_le signatures s slots,
  has_signed-append signatures s slot.party_ref,
  eq_iff slot.party_ref s.party_ref,
  eq_iff s.party_ref slot.party_ref,
)

-- A party that may sign: its slot, and what the guards established.
pub record CanSubmit (policy : Value) (progress : MultiPartySignerProgress) (claim : IdentityClaim)
    (slot : MultiPartyPartySlot) : Type 0 where
  pub unsigned : has_signed progress.signatures progress.active_party_ref ≡ false
  pub elsewhere :
      signed_elsewhere progress.signatures claim.subject_ref progress.active_party_ref ≡ false
  pub found :
      find (λ s. str_eq s.party_ref progress.active_party_ref) (required_multi_party_slots policy)
      ≡ some slot

pub assert-CanSubmit :
    (policy : Value) (progress : MultiPartySignerProgress) (claim : IdentityClaim)
    (slot : MultiPartyPartySlot)
    → assert_multi_party_signer_can_submit (some claim) policy progress ≡ ok slot
    → CanSubmit policy progress claim slot
unfolding assert_multi_party_signer_can_submit
assert-CanSubmit policy progress claim slot h = record {
  unsigned = ground arith;
  elsewhere = ground arith;
  found = ground arith;
}

pub CanSubmit-assert :
    (policy : Value) (progress : MultiPartySignerProgress) (claim : IdentityClaim)
    (slot : MultiPartyPartySlot)
    → CanSubmit policy progress claim slot
    → assert_multi_party_signer_can_submit (some claim) policy progress ≡ ok slot
unfolding assert_multi_party_signer_can_submit
CanSubmit-assert policy progress claim slot can = rw (can.unsigned, can.elsewhere, can.found) refl
