-- ===== src/Policy/RecordLifecycle.antt =====
-- The resolution of a record-lifecycle policy (src/policy/resolver.ts,
-- `resolveRecordLifecyclePolicy` and its helpers).
pub mod Windows
pub mod Actions
pub mod Overrides
use Prim.Native.Char.{code}
use Prim.Native.String
use formspec_web.Common.{
  String, Bool, true, false, not, ◌&&◌, ◌||◌, List, [], ◌∷◌, Result, ok, err, ◌>>◌, ◌>>=◌, done,
  throw_if, each, all, is_empty, str_eq, if◌then◌else◌,
}
use formspec_web.Js.{
  Value, undefined, null, bool, str, arr, obj, Items, nil, cons, items, Fields, end, field, get,
  has, spread, is_undefined, is_null, is_array, is_boolean, is_object, is_string, is_str, is_true,
  truthy, elements, prop, fields_of, or_value, starts_with_slash, characters,
}
use formspec_web.Policy.Errors.{RuntimePolicyDocumentKind, Thrown, type_error, Checked, invalid}
use formspec_web.Policy.RecordLifecycleLimits.{
  Action, correctable, withdrawable, disputable, action_name,
}

-- mergeActionPolicy
unfoldable pub merge_action_policy : Value → Value → Value
merge_action_policy org_action form_action =
    if not (truthy org_action) && not (truthy form_action)
    then undefined
    else obj (spread (spread end (fields_of org_action)) (fields_of form_action))

-- The action of the merged policy; `undefined` too where there is no policy.
abbrev pub merged_action : Value → Value → Action → Value
merged_action org_policy form_policy action =
    merge_action_policy (prop org_policy (action_name action))
      (prop form_policy (action_name action))

unfoldable pub normalize_record_lifecycle_window : Value → Value
normalize_record_lifecycle_window (obj fs) =
    if has fs "state"
    then (if is_str (get fs "state") "open"
        then obj (field "state" (str "open") end)
        else if is_str (get fs "state") "closed"
        then (if is_undefined (get fs "closedAt")
            then obj (field "state" (str "closed") end)
            else obj (field "state" (str "closed") (field "closedAt" (get fs "closedAt") end)))
        else obj (field "state" (str "closes-at") (field "closesAt" (get fs "closesAt") end)))
    else if is_str (get fs "closesAt") "never"
    then obj (field "state" (str "open") end)
    else obj (field "state" (str "closes-at") (field "closesAt" (get fs "closesAt") end))
normalize_record_lifecycle_window v = undefined

-- `fieldSet ? [...fieldSet] : undefined`
copy_field_set : Value → Value
copy_field_set (arr xs) = arr xs
copy_field_set (str s) = if str_eq s "" then undefined else arr (characters s)
copy_field_set v = undefined

unfoldable pub resolve_correctable : Value → Value
unfolding copy_field_set
resolve_correctable merged = obj (
    field "enabled" (prop merged "enabled") (
      field "correctableFieldSet" (copy_field_set (prop merged "correctableFieldSet")) (
        field "window" (normalize_record_lifecycle_window (prop merged "window")) (
          field "requiresEvidence" (or_value (prop merged "requiresEvidence") (bool false))
            (field "requiresReason" (or_value (prop merged "requiresReason") (bool true)) end)))))

unfoldable pub resolve_withdrawable : Value → Value
resolve_withdrawable merged = obj (
    field "enabled" (prop merged "enabled") (
      field "window" (normalize_record_lifecycle_window (prop merged "window")) (
        field "requiresReason" (or_value (prop merged "requiresReason") (bool true)) (
          field "preDeterminationKernelMode"
            (or_value (prop merged "preDeterminationKernelMode") (str "applicant-withdrawn"))
            (field "postDeterminationIntent" (prop merged "postDeterminationIntent") (
              field "requiresIssuerAcceptance"
                (or_value (prop merged "requiresIssuerAcceptance") (bool false))
                (field "partyScope" (or_value (prop merged "partyScope") (str "any-party"))
                  end)))))))

unfoldable pub resolve_disputable : Value → Value
resolve_disputable merged = obj (
    field "enabled" (prop merged "enabled") (
      field "window" (normalize_record_lifecycle_window (prop merged "window")) (
        field "requiresEvidence" (or_value (prop merged "requiresEvidence") (bool false)) (
          field "requiresReason" (or_value (prop merged "requiresReason") (bool true))
            (field "signerOnly" (or_value (prop merged "signerOnly") (bool true)) end)))))

unfoldable pub resolve_action : Action → Value → Value
resolve_action correctable merged = resolve_correctable merged
resolve_action withdrawable merged = resolve_withdrawable merged
resolve_action disputable merged = resolve_disputable merged

-- The resolved action goes before those that follow it, if there is one.
with_action : Action → Value → Fields → Fields
with_action action merged rest =
    if truthy merged then field (action_name action) (resolve_action action merged) rest else rest

unfoldable pub resolve_record_lifecycle_policy : Value → Value → Value
unfolding with_action
resolve_record_lifecycle_policy org_policy form_policy =
    if not (truthy org_policy) && not (truthy form_policy)
    then undefined
    else obj (
        with_action correctable (merged_action org_policy form_policy correctable) (
          with_action withdrawable (merged_action org_policy form_policy withdrawable)
            (with_action disputable (merged_action org_policy form_policy disputable) end)))
