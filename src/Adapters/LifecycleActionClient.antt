-- ===== src/Adapters/LifecycleActionClient.antt =====
-- The in-memory client of lifecycle actions (src/adapters/stub/lifecycle-action-client.ts). Every
-- operation gives the state after it and its result, since a call that throws may have made the case's
-- first snapshot. A flag that is missing is false, as the code asks for `=== true`. The labels and
-- titles of events, which nothing reads, are left out. The clock's text is an argument.
pub mod Operations
pub mod History
pub mod Submissions
use Prim.Native.Char.{Char, code}
use Prim.Native.String
use formspec_web.Common.{
  ℕ, zero, suc, ◌-◌, String, Bool, true, false, not, ◌&&◌, ◌||◌, Option, none, some, List, [], ◌∷◌,
  ◌++◌, Result, ok, err, ◌>>=◌, ◌>>◌, done, throw_if, each, all, any, find, includes, is_empty,
  lookup, insert, leb, ◌==◌, str_eq, padded, or_else, or_option, if◌then◌else◌,
}
use formspec_web.Js.{Value, is_undefined}

pub data LifecycleAction : Type 0 where
  correct withdraw dispute : LifecycleAction

pub data LifecycleWindow : Type 0 where
  open_window : LifecycleWindow
  closes_at : String → LifecycleWindow
  closed_window : Option String → LifecycleWindow

pub data PartyScope : Type 0 where
  any_party all_parties_must_agree : PartyScope

pub record LifecycleActionAvailability : Type 0 where
  pub action : LifecycleAction
  pub enabled : Bool
  pub window : Option LifecycleWindow
  pub correctable_field_set : Option (List String)
  pub requires_reason : Bool
  pub requires_evidence : Bool
  pub signer_only : Bool
  pub party_scope : Option PartyScope
  pub post_determination_intent : Option String
  pub requires_issuer_acceptance : Bool

pub record LifecycleChangedField : Type 0 where
  pub path : String
  pub label : String
  pub original_value : Value
  pub corrected_value : Value

pub data RecordedAs : Type 0 where
  correction amendment : RecordedAs

pub record CorrectionEvent : Type 0 where
  pub party_ref : Option String
  pub recorded_as : RecordedAs
  pub changed_fields : List LifecycleChangedField
  pub reason : Option String
  pub evidence_refs : Option (List String)

pub record WithdrawalEvent : Type 0 where
  pub party_ref : Option String
  pub reason : Option String
  pub rescission_requested : Bool
  pub requires_issuer_acceptance : Bool

pub record DisputeEvent : Type 0 where
  pub party_ref : Option String
  pub disputed_event_id : Option String
  pub statement : String

pub data EventBody : Type 0 where
  original_submission : EventBody
  corrected : CorrectionEvent → EventBody
  withdrawn : WithdrawalEvent → EventBody
  disputed : DisputeEvent → EventBody
  consent_revoked : Option String → Option String → EventBody

pub record LifecycleTimelineEvent : Type 0 where
  pub event_id : String
  pub occurred_at : String
  pub body : EventBody

pub record LifecycleActionSnapshot : Type 0 where
  pub case_urn : String
  pub actions : List LifecycleActionAvailability
  pub events : List LifecycleTimelineEvent
  pub updated_at : String

pub record LifecycleActionReceipt : Type 0 where
  pub action : LifecycleAction
  pub event : LifecycleTimelineEvent
  pub snapshot : LifecycleActionSnapshot
  pub support_ref : String

-- The variables of the closure that change.
pub record Client : Type 0 where
  pub snapshots : List (String × LifecycleActionSnapshot)
  pub receipts_by_key : List (String × LifecycleActionReceipt)
  pub next_event : ℕ

abbrev pub default_correctable_field_set : List String
default_correctable_field_set = "/fullName" ∷ "/householdSize" ∷ "/address/street" ∷ []

abbrev plain_action : LifecycleAction → LifecycleActionAvailability
plain_action action = record {
  action = action;
  enabled = true;
  window = none;
  correctable_field_set = none;
  requires_reason = true;
  requires_evidence = false;
  signer_only = false;
  party_scope = none;
  post_determination_intent = none;
  requires_issuer_acceptance = false;
}

unfoldable pub default_actions : List LifecycleActionAvailability
default_actions =
    record (plain_action correct) {
      window = some open_window;
      correctable_field_set = some default_correctable_field_set;
    }
    ∷ record (plain_action withdraw) { window = some (closes_at "2026-06-24T23:59:59.000Z") }
    ∷ record (plain_action dispute) { signer_only = true }
    ∷ []

unfoldable pub event_id_of : String → ℕ → String
event_id_of prefix n = String.◌++◌ (String.◌++◌ (String.◌++◌ "evt-" prefix) "-") (padded n)

-- What `trim` removes.
abbrev pub is_white : Char → Bool
is_white c =
    (leb 9 (code c) && leb (code c) 13)
    || code c == 32
    || code c == 160
    || code c == 0x1680
    || (leb 0x2000 (code c) && leb (code c) 0x200a)
    || code c == 0x2028
    || code c == 0x2029
    || code c == 0x202f
    || code c == 0x205f
    || code c == 0x3000
    || code c == 0xfeff

-- `s.trim().length === 0`
unfoldable pub is_blank : String → Bool
is_blank String.[] = true
is_blank (String.◌∷◌ c s) = is_white c && is_blank s

abbrev pub same_action : LifecycleAction → LifecycleAction → Bool
same_action correct correct = true
same_action withdraw withdraw = true
same_action dispute dispute = true
same_action _ _ = false

abbrev pub action_name : LifecycleAction → String
action_name correct = "correct"
action_name withdraw = "withdraw"
action_name dispute = "dispute"

abbrev pub is_closed : Option LifecycleWindow → Bool
is_closed (some (closed_window at)) = true
is_closed _ = false

unfoldable pub assert_action_enabled :
    LifecycleActionSnapshot → LifecycleAction → Result String LifecycleActionAvailability
assert_action_enabled snapshot action =
    elim (find (λ a. same_action a.action action) snapshot.actions) [
      | none ↦ err (String.◌++◌ (action_name action) " is not available for this record")
      | some found ↦
          if not found.enabled
          then err (String.◌++◌ (action_name action) " is not available for this record")
          else if is_closed found.window
          then err (String.◌++◌ (action_name action) " window is closed for this record")
          else ok found
    ]

unfoldable pub assert_changed_fields : List LifecycleChangedField → Result String (Unit {0})
assert_changed_fields fields =
    throw_if (is_empty fields) "At least one changed field is required"
    >> throw_if (any (λ f. str_eq f.path "" || str_eq f.label "") fields)
        "Changed fields need a path and label"

abbrev pub no_text : Option String → Bool
no_text none = true
no_text (some text) = is_blank text

unfoldable pub assert_reason_if_required :
    LifecycleActionAvailability → Option String → String → Result String (Unit {0})
assert_reason_if_required action reason message =
    throw_if (action.requires_reason && no_text reason) message

abbrev pub no_refs : Option (List String) → Bool
no_refs none = true
no_refs (some refs) = is_empty refs

unfoldable pub assert_evidence_if_required :
    LifecycleActionAvailability → Option (List String) → Result String (Unit {0})
assert_evidence_if_required action evidence_refs =
    throw_if (action.requires_evidence && no_refs evidence_refs)
      "Evidence is required for this lifecycle action"

abbrev pub is_signer : List String → Option String → Bool
is_signer signer_refs none = false
is_signer signer_refs (some actor) = not (str_eq actor "") && includes signer_refs actor

unfoldable pub assert_signer_scope :
    LifecycleActionAvailability → Option String → List String → Result String (Unit {0})
assert_signer_scope action actor_ref signer_refs =
    if not action.signer_only || is_empty signer_refs
    then done
    else throw_if (not (is_signer signer_refs actor_ref))
        "Only signers can add a dispute note to this record"

abbrev pub needs_all : Option PartyScope → Bool
needs_all (some all_parties_must_agree) = true
needs_all _ = false

unfoldable pub assert_party_scope :
    LifecycleActionAvailability → Option PartyScope → Bool → Result String (Unit {0})
assert_party_scope action party_scope all_parties_approved =
    throw_if (needs_all (or_option party_scope action.party_scope) && not all_parties_approved)
      "All parties must approve withdrawal before it can be submitted"

abbrev pub is_rescission : Option String → Bool
is_rescission none = false
is_rescission (some intent) = str_eq intent "rescission-requested"

unfoldable pub assert_rescission_policy :
    LifecycleActionAvailability → Bool → Result String (Unit {0})
assert_rescission_policy action rescission_requested =
    throw_if
      (rescission_requested
        && (not (is_rescission action.post_determination_intent)
            || not action.requires_issuer_acceptance))
      "Post-determination withdrawal review is not available for this record"

abbrev pub introduces_new_field : List LifecycleChangedField → Bool
introduces_new_field fields =
    any (λ f. is_undefined f.original_value && not (is_undefined f.corrected_value)) fields
