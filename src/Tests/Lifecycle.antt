-- ===== src/Tests/Lifecycle.antt =====
-- Theorems on the merge of lifecycle policies, at an org's and a form's policy.
use formspec_web.Common.{◌≢◌, ◌≡◌, refl, true, false, done}
use formspec_web.Js.{
  Value, nil, cons, arr, undefined, bool, str, obj, Fields, end, field, get, has, prop,
  HasDistinctKeys,
}
use formspec_web.Policy.Errors.{RuntimePolicyDocumentKind, org, form}
use formspec_web.Policy.RecordLifecycleLimits.{
  validate_record_lifecycle_window, validate_action_fields, validate_correctable,
  validate_optional_boolean, validate_field_set, validate_withdrawable, correctable, withdrawable,
  validate_record_lifecycle_action,
}
use formspec_web.Policy.RecordLifecycle.{
  merge_action_policy, resolve_action, resolve_correctable, resolve_withdrawable,
}
use formspec_web.Policy.RecordLifecycle.Actions.{IsResolvedAction, resolve_action-IsResolvedAction}
use formspec_web.Policy.RecordLifecycle.Overrides.{
  undefined_evidence_overrides_org, rescission_without_acceptance,
}
use formspec_web.Tests.Policy.{resolver}

abbrev org_correctable : Fields
org_correctable = field "enabled" (bool true) (
    field "requiresEvidence" (bool true)
      (field "correctableFieldSet" (arr (cons (str "/address") nil)) end))

abbrev form_correctable : Fields
form_correctable = field "enabled" (bool true) (
    field "requiresEvidence" undefined
      (field "correctableFieldSet" (arr (cons (str "/address") nil)) end))

org_correctable_distinct : HasDistinctKeys org_correctable
unfolding resolver
org_correctable_distinct = (refl, (refl, (refl, tt)))

form_correctable_distinct : HasDistinctKeys form_correctable
unfolding resolver
form_correctable_distinct = (refl, (refl, (refl, tt)))

org_correctable_valid :
    validate_record_lifecycle_action org correctable (obj org_correctable) ≡ done
unfolding resolver validate_record_lifecycle_action validate_record_lifecycle_window
    validate_action_fields validate_correctable validate_optional_boolean validate_field_set
org_correctable_valid = refl

form_correctable_valid :
    validate_record_lifecycle_action form correctable (obj form_correctable) ≡ done
unfolding resolver validate_record_lifecycle_action validate_record_lifecycle_window
    validate_action_fields validate_correctable validate_optional_boolean validate_field_set
form_correctable_valid = refl

resolve_action-IsResolvedAction_example :
    IsResolvedAction (
      resolve_action correctable (merge_action_policy (obj org_correctable) (obj form_correctable)))
resolve_action-IsResolvedAction_example =
    resolve_action-IsResolvedAction correctable org form org_correctable form_correctable
      org_correctable_distinct form_correctable_distinct org_correctable_valid
      form_correctable_valid

undefined_evidence_overrides_org_example :
    prop
      (resolve_correctable (merge_action_policy (obj org_correctable) (obj form_correctable)))
      "requiresEvidence"
    ≡ bool false
unfolding get has
undefined_evidence_overrides_org_example =
    undefined_evidence_overrides_org org_correctable form_correctable org_correctable_distinct
      form_correctable_distinct refl refl

abbrev org_withdrawable : Fields
org_withdrawable = field "enabled" (bool true) (
    field "postDeterminationIntent" (str "rescission-requested")
      (field "requiresIssuerAcceptance" (bool true) end))

abbrev form_withdrawable : Fields
form_withdrawable = field "enabled" (bool true) (field "requiresIssuerAcceptance" (bool false) end)

org_withdrawable_distinct : HasDistinctKeys org_withdrawable
unfolding resolver
org_withdrawable_distinct = (refl, (refl, (refl, tt)))

form_withdrawable_distinct : HasDistinctKeys form_withdrawable
unfolding resolver
form_withdrawable_distinct = (refl, (refl, tt))

abbrev merged_withdrawable : Value
merged_withdrawable = merge_action_policy (obj org_withdrawable) (obj form_withdrawable)

org_accepted : validate_record_lifecycle_action org withdrawable (obj org_withdrawable) ≡ done
unfolding resolver validate_record_lifecycle_action validate_action_fields validate_withdrawable
    validate_record_lifecycle_window validate_optional_boolean
org_accepted = refl

form_accepted : validate_record_lifecycle_action form withdrawable (obj form_withdrawable) ≡ done
unfolding resolver validate_record_lifecycle_action validate_action_fields validate_withdrawable
    validate_record_lifecycle_window validate_optional_boolean
form_accepted = refl

rescission_without_acceptance_example :
    ((source : RuntimePolicyDocumentKind)
      → (validate_record_lifecycle_action source withdrawable merged_withdrawable ≢ done)
        × (validate_record_lifecycle_action source withdrawable
              (resolve_withdrawable merged_withdrawable)
            ≢ done))
    × (prop (resolve_withdrawable merged_withdrawable) "postDeterminationIntent"
        ≡ str "rescission-requested")
    × (prop (resolve_withdrawable merged_withdrawable) "requiresIssuerAcceptance" ≡ bool false)
unfolding get has
rescission_without_acceptance_example =
    rescission_without_acceptance org_withdrawable form_withdrawable org_withdrawable_distinct
      form_withdrawable_distinct org_accepted form_accepted refl refl refl
