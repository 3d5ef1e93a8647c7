-- ===== src/Policy/RecordLifecycleLimits.antt =====
-- The validation of a record-lifecycle policy (src/policy/resolver.ts,
-- `validateRecordLifecyclePolicy` and its helpers).
use Prim.Native.String
use formspec_web.Common.{
  String, Bool, false, not, ◌&&◌, ◌||◌, err, ◌>>◌, done, throw_if, each, is_empty, if◌then◌else◌,
}
use formspec_web.Js.{
  Value, str, arr, items, has, is_undefined, is_null, is_array, is_boolean, is_object, is_string,
  is_str, is_true, elements, prop, fields_of, starts_with_slash, characters,
}
use formspec_web.Policy.Errors.{RuntimePolicyDocumentKind, Thrown, type_error, Checked, invalid}

-- The keys of a RecordLifecyclePolicy.
pub data Action : Type 0 where
  correctable withdrawable disputable : Action

abbrev pub action_name : Action → String
action_name correctable = "correctable"
action_name withdrawable = "withdrawable"
action_name disputable = "disputable"

-- "recordLifecycle.", the action, and the rest of a reason.
abbrev lifecycle_reason : RuntimePolicyDocumentKind → Action → String → Thrown
lifecycle_reason source action rest =
    invalid source (String.◌++◌ (String.◌++◌ "recordLifecycle." (action_name action)) rest)

unfoldable pub validate_record_lifecycle_window :
    RuntimePolicyDocumentKind → Action → Value → Checked (Unit {0})
validate_record_lifecycle_window source action value = if is_undefined value then done else do
  throw_if (not (is_object value)) (lifecycle_reason source action ".window must be an object")
  if has (fields_of value) "state"
      then (do
        throw_if
            (not (is_str (prop value "state") "open")
              && not (is_str (prop value "state") "closes-at")
              && not (is_str (prop value "state") "closed"))
            (lifecycle_reason source action ".window.state must be open | closes-at | closed")
        throw_if
            (is_str (prop value "state") "closes-at" && not (is_string (prop value "closesAt")))
            (lifecycle_reason source action ".window.closesAt must be a string")
        throw_if
            (is_str (prop value "state") "closed"
              && not (is_undefined (prop value "closedAt"))
              && not (is_string (prop value "closedAt")))
            (lifecycle_reason source action ".window.closedAt must be a string"))
      else (throw_if
          (not (has (fields_of value) "closesAt") || not (is_string (prop value "closesAt")))
          (lifecycle_reason source action ".window.closesAt must be a string"))

abbrev pub is_pointer : Value → Bool
is_pointer (str s) = starts_with_slash s
is_pointer v = false

abbrev not_pointer : RuntimePolicyDocumentKind → Thrown
not_pointer source =
    invalid source
      "recordLifecycle.correctable.correctableFieldSet entries must be RFC 6901-style JSON pointer strings"

-- `for (const path of fieldSet)`: an array gives its elements and a string its characters; any other
-- value cannot be iterated over.
unfoldable pub validate_field_set : RuntimePolicyDocumentKind → Value → Checked (Unit {0})
validate_field_set source (arr xs) =
    each (λ path. throw_if (not (is_pointer path)) (not_pointer source)) (items xs)
validate_field_set source (str s) =
    each (λ path. throw_if (not (is_pointer path)) (not_pointer source)) (items (characters s))
validate_field_set source v = err type_error

unfoldable pub validate_optional_boolean :
    RuntimePolicyDocumentKind → Action → String → Value → Checked (Unit {0})
validate_optional_boolean source action property value =
    throw_if (not (is_undefined value) && not (is_boolean value))
      (lifecycle_reason source action (String.◌++◌ (String.◌++◌ "." property) " must be a boolean"))

unfoldable pub validate_correctable : RuntimePolicyDocumentKind → Value → Checked (Unit {0})
validate_correctable source value = do
  throw_if (is_true (prop value "enabled") && not (is_array (prop value "correctableFieldSet"))) (
      invalid source
        "recordLifecycle.correctable.correctableFieldSet must be declared when correctable is enabled")
  throw_if
      (is_true (prop value "enabled") && is_empty (elements (prop value "correctableFieldSet")))
      (invalid source "recordLifecycle.correctable.correctableFieldSet must not be empty")
  if is_undefined (prop value "correctableFieldSet")
      then done
      else validate_field_set source (prop value "correctableFieldSet")
  validate_optional_boolean source correctable "requiresEvidence" (prop value "requiresEvidence")
  validate_optional_boolean source correctable "requiresReason" (prop value "requiresReason")

unfoldable pub validate_withdrawable : RuntimePolicyDocumentKind → Value → Checked (Unit {0})
validate_withdrawable source value = do
  validate_optional_boolean source withdrawable "requiresReason" (prop value "requiresReason")
  validate_optional_boolean source withdrawable "requiresIssuerAcceptance"
      (prop value "requiresIssuerAcceptance")
  throw_if
      (not (is_undefined (prop value "preDeterminationKernelMode"))
        && not (is_str (prop value "preDeterminationKernelMode") "applicant-withdrawn"))
      (invalid source
        "recordLifecycle.withdrawable.preDeterminationKernelMode must be \"applicant-withdrawn\"")
  throw_if
      (not (is_undefined (prop value "postDeterminationIntent"))
        && not (is_str (prop value "postDeterminationIntent") "rescission-requested"))
      (invalid source
        "recordLifecycle.withdrawable.postDeterminationIntent must be \"rescission-requested\"")
  throw_if
      (is_str (prop value "postDeterminationIntent") "rescission-requested"
        && not (is_true (prop value "requiresIssuerAcceptance")))
      (invalid source
        "recordLifecycle.withdrawable.requiresIssuerAcceptance must be true when postDeterminationIntent is configured")
  throw_if
      (not (is_undefined (prop value "partyScope"))
        && not (is_str (prop value "partyScope") "any-party")
        && not (is_str (prop value "partyScope") "all-parties-must-agree"))
      (invalid source
        "recordLifecycle.withdrawable.partyScope must be any-party | all-parties-must-agree")

unfoldable pub validate_disputable : RuntimePolicyDocumentKind → Value → Checked (Unit {0})
validate_disputable source value = do
  validate_optional_boolean source disputable "requiresEvidence" (prop value "requiresEvidence")
  validate_optional_boolean source disputable "requiresReason" (prop value "requiresReason")
  validate_optional_boolean source disputable "signerOnly" (prop value "signerOnly")

-- The part of the validation that depends on the action.
unfoldable pub validate_action_fields :
    RuntimePolicyDocumentKind → Action → Value → Checked (Unit {0})
validate_action_fields source correctable value = validate_correctable source value
validate_action_fields source withdrawable value = validate_withdrawable source value
validate_action_fields source disputable value = validate_disputable source value

-- Reading a property of null throws.
unfoldable pub validate_record_lifecycle_action :
    RuntimePolicyDocumentKind → Action → Value → Checked (Unit {0})
validate_record_lifecycle_action source action value = if is_undefined value then done else do
  throw_if (is_null value) type_error
  throw_if (not (is_boolean (prop value "enabled")))
      (lifecycle_reason source action ".enabled must be a boolean")
  validate_record_lifecycle_window source action (prop value "window")
  validate_action_fields source action value

unfoldable pub validate_record_lifecycle_policy :
    RuntimePolicyDocumentKind → Value → Checked (Unit {0})
validate_record_lifecycle_policy source value = if is_undefined value then done else do
  throw_if (is_null value) type_error
  validate_record_lifecycle_action source correctable (prop value "correctable")
  validate_record_lifecycle_action source withdrawable (prop value "withdrawable")
  validate_record_lifecycle_action source disputable (prop value "disputable")
