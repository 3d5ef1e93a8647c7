-- ===== src/Flow/Signers.antt =====
-- The signers of a multi-party form (src/app/respondent-flow.ts, from requiredMultiPartySlots to
-- buildMultiPartyAggregateResponse). Parameters: the browser's crypto.subtle, if it has it, as a digest of
-- bytes; the canonical bytes of a response, of another package, or the message of what it throws, which
-- is for a response that is no object, holds what JSON cannot or has malformed Unicode; the clock's text, given to each
-- operation.
pub mod Drafts
pub mod Steps
pub mod Reachable
pub mod Progress
pub mod RoundTrip
pub mod Resolved
use Prim.Native.Char.{Char, code}
use Prim.Native.String
use formspec_web.Common.{
  ℕ, zero, suc, ◌+◌, String, Bool, true, false, not, ◌&&◌, ◌||◌, Option, none, some, List, [], ◌∷◌,
  ◌++◌, map, Result, ok, err, ◌>>=◌, ◌>>◌, throw_if, filter, find, all, any, includes, is_empty,
  str_eq, leb, ◌==◌, decimal, if◌then◌else◌,
}
use formspec_web.Js.{
  Value, undefined, int, pos, str, arr, obj, nil, cons, end, field, of_list, is_plain_object,
  is_string, is_array, is_str, is_undefined, elements, prop, or_value, put, spread, fields_of,
  Fields,
}
use formspec_web.Policy.MultiParty.{text_of}
use formspec_web.Shared.IdempotencyKey.{hex}
use formspec_web.Flow.Identity.{IdentityClaim}

-- A party's label is not validated, so a slot's may be any value.
pub record MultiPartyPartySlot : Type 0 where
  pub party_ref : String
  pub role_id : String
  pub label : Value

pub record MultiPartySignatureRecord : Type 0 where
  pub party_ref : String
  pub role_id : String
  pub subject_ref : String
  pub response_ref : String
  pub response_hash : String
  pub signed_at : String

pub record MultiPartySignerProgress : Type 0 where
  pub active_party_ref : String
  pub signatures : List MultiPartySignatureRecord

pub record MultiPartyStoredResponse : Type 0 where
  pub party_ref : String
  pub response : Value

pub record MultiPartyPersistedState : Type 0 where
  pub progress : MultiPartySignerProgress
  pub responses : List MultiPartyStoredResponse

-- `[-_:]`
abbrev pub is_separator : Char → Bool
is_separator c = code c == b'-' || code c == b'_' || code c == b':'

abbrev pub within : ℕ → ℕ → ℕ → Bool
within low high n = leb low n && leb n high

-- `\w`
abbrev pub is_word : Char → Bool
is_word c =
    within b'a' b'z' (code c)
    || within b'A' b'Z' (code c)
    || within b'0' b'9' (code c)
    || code c == b'_'

-- `s.replace(/[-_:]+/g, ' ')`, where the flag tells that a run of separators has begun.
abbrev pub spaced : Bool → String → String
spaced in_run String.[] = ""
spaced in_run (String.◌∷◌ c s) =
    if is_separator c
    then (if in_run then spaced true s else String.◌∷◌ " " (spaced true s))
    else String.◌∷◌ c (spaced false s)

-- The letter of the second text where the first has `c`, and `c` if the first lacks it.
abbrev pub translate : String → String → Char → Char
translate (String.◌∷◌ a lower) (String.◌∷◌ b upper) c =
    if code a == code c then b else translate lower upper c
translate _ _ c = c

abbrev pub upper : Char → Char
upper c = translate "abcdefghijklmnopqrstuvwxyz" "ABCDEFGHIJKLMNOPQRSTUVWXYZ" c

-- `s.replace(/\b\w/g, upper)`, where the flag tells that the character before is of a word.
abbrev pub capitalized : Bool → String → String
capitalized after_word String.[] = ""
capitalized after_word (String.◌∷◌ c s) =
    String.◌∷◌ (if is_word c && not after_word then upper c else c) (capitalized (is_word c) s)

unfoldable pub label_from_party_ref : String → String
label_from_party_ref party_ref = capitalized false (spaced false party_ref)

-- `party.cardinality.min`; another value than a natural number makes an array of length 0.
abbrev pub count_of : Value → ℕ
count_of (int (pos n)) = n
count_of v = 0

abbrev pub party_ref_of : String → ℕ → ℕ → String
party_ref_of role_id count index =
    if count == 1 then role_id else String.◌++◌ (String.◌++◌ role_id ":") (decimal (index + 1))

abbrev pub slot_of : Value → ℕ → ℕ → MultiPartyPartySlot
slot_of party count index =
    let role_id = text_of (prop party "roleId") in
    let party_ref = party_ref_of role_id count index in
    record {
      party_ref = party_ref;
      role_id = role_id;
      label = or_value (prop party "label") (str (label_from_party_ref party_ref));
    }

-- The slots of a party from `index` on, `left` many.
abbrev pub slots_from : Value → ℕ → ℕ → ℕ → List MultiPartyPartySlot
slots_from party count index zero = []
slots_from party count index (suc left) =
    slot_of party count index ∷ slots_from party count (suc index) left

abbrev pub slots_of_parties : List Value → List MultiPartyPartySlot
slots_of_parties [] = []
slots_of_parties (party ∷ parties) =
    let count = count_of (prop (prop party "cardinality") "min") in
    slots_from party count 0 count ++ slots_of_parties parties

unfoldable pub required_multi_party_slots : Value → List MultiPartyPartySlot
required_multi_party_slots policy = slots_of_parties (elements (prop policy "parties"))

abbrev pub first_slot : List MultiPartyPartySlot → Option MultiPartyPartySlot
first_slot [] = none
first_slot (slot ∷ slots) = some slot

unfoldable pub create_multi_party_signer_progress : Value → Result String MultiPartySignerProgress
create_multi_party_signer_progress policy = elim (first_slot (required_multi_party_slots policy)) [
  | none ↦ err "multiParty requires at least one required party slot"
  | some first ↦ ok (record { active_party_ref = first.party_ref; signatures = [] })
]

unfoldable pub create_multi_party_persisted_state : Value → Result String MultiPartyPersistedState
create_multi_party_persisted_state policy = do
  progress ← create_multi_party_signer_progress policy
  ok (record { progress = progress; responses = [] })

-- `progress.signatures.some((signature) => signature.partyRef === ref)`
abbrev pub has_signed : List MultiPartySignatureRecord → String → Bool
has_signed signatures ref = any (λ s. str_eq s.party_ref ref) signatures

-- The same identity has signed for another party.
abbrev pub signed_elsewhere : List MultiPartySignatureRecord → String → String → Bool
signed_elsewhere signatures subject_ref active =
    any (λ s. str_eq s.subject_ref subject_ref && not (str_eq s.party_ref active)) signatures

unfoldable pub assert_multi_party_signer_can_submit :
    Option IdentityClaim → Value → MultiPartySignerProgress → Result String MultiPartyPartySlot
assert_multi_party_signer_can_submit none policy progress =
    err "Multi-party forms require each signer to authenticate before signing."
assert_multi_party_signer_can_submit (some claim) policy progress = do
  throw_if (has_signed progress.signatures progress.active_party_ref)
      (String.◌++◌ (String.◌++◌ "Party \"" progress.active_party_ref) "\" has already signed.")
  throw_if (signed_elsewhere progress.signatures claim.subject_ref progress.active_party_ref)
      "Each party must sign with a distinct authenticated identity."
  elim (find (λ slot. str_eq slot.party_ref progress.active_party_ref)
      (required_multi_party_slots policy)) [
        | none ↦
            err
              (String.◌++◌ (String.◌++◌ "Unknown active party \"" progress.active_party_ref) "\".")
        | some slot ↦ ok slot
      ]

unfoldable pub multi_party_complete : Value → MultiPartySignerProgress → Bool
multi_party_complete policy progress =
    all (λ slot. has_signed progress.signatures slot.party_ref) (required_multi_party_slots policy)

-- `nextSlot?.partyRef ?? active`
abbrev pub ref_or : Option MultiPartyPartySlot → String → String
ref_or none active = active
ref_or (some slot) active = slot.party_ref

module _ (subtle : Option (List ℕ → List ℕ)) (canonical : Value → Result String (List ℕ)) where
  unfoldable pub response_hash : Value → Result String String
  response_hash response = elim subtle [
    | none ↦
        err
          "Secure response hashing is unavailable in this browser. Try again in a supported secure browser."
    | some digest ↦ do bytes ← canonical response; ok (String.◌++◌ "sha256:" (hex (digest bytes)))
  ]

  -- A response's id is a string, as its type says.
  abbrev pub signature_of :
      MultiPartyPartySlot
      → IdentityClaim
      → String
      → Value
      → String
      → String
      → MultiPartySignatureRecord
  signature_of slot claim idempotency_key response hash now = record {
    party_ref = slot.party_ref;
    role_id = slot.role_id;
    subject_ref = claim.subject_ref;
    response_ref =
        String.◌++◌ "response:" (text_of (or_value (prop response "id") (str idempotency_key)));
    response_hash = hash;
    signed_at = now;
  }

  -- The progress after a signature for the slot.
  abbrev pub advanced :
      Value
      → MultiPartySignerProgress
      → MultiPartyPartySlot
      → MultiPartySignatureRecord
      → MultiPartySignerProgress
  advanced policy progress slot signature =
      let signatures = progress.signatures ++ signature ∷ [] in
      record {
        active_party_ref =
            ref_or
              (find (λ next. not (has_signed signatures next.party_ref))
                (required_multi_party_slots policy))
              slot.party_ref;
        signatures = signatures;
      }

  unfoldable pub record_multi_party_signer :
      Option IdentityClaim
      → String
      → Value
      → MultiPartySignerProgress
      → Value
      → String
      → Result String MultiPartySignerProgress
  record_multi_party_signer none idempotency_key policy progress response now =
      assert_multi_party_signer_can_submit none policy progress >>= λ slot.
      err "Multi-party forms require each signer to authenticate before signing."
  record_multi_party_signer (some claim) idempotency_key policy progress response now = do
    slot ← assert_multi_party_signer_can_submit (some claim) policy progress
    hash ← response_hash response
    ok (advanced policy progress slot (signature_of slot claim idempotency_key response hash now))

  unfoldable pub record_multi_party_signer_state :
      Option IdentityClaim
      → String
      → Value
      → Value
      → MultiPartyPersistedState
      → String
      → Result String MultiPartyPersistedState
  record_multi_party_signer_state claim idempotency_key policy response state now = do
    progress ← record_multi_party_signer claim idempotency_key policy state.progress response now
    ok (record {
      progress = progress;
      responses =
          filter (λ entry. not (str_eq entry.party_ref state.progress.active_party_ref))
            state.responses
          ++ record { party_ref = state.progress.active_party_ref; response = response } ∷ [];
    })
