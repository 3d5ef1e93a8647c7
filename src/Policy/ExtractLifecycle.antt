-- ===== src/Policy/ExtractLifecycle.antt =====
-- The lifecycle policy that a form's definition declares (src/policy/extract-form-policy.ts). A property
-- that the source gives the value undefined is a property with that value.
pub mod Accepted
pub mod Overriding
use formspec_web.Common.{
  String, Bool, true, false, not, ◌&&◌, ◌||◌, Option, none, some, List, [], ◌∷◌, if◌then◌else◌,
}
use formspec_web.Js.{
  Value, undefined, bool, str, arr, obj, end, field, Items, of_list, elements, strings, is_object,
  is_plain_object, is_array, is_boolean, is_string, is_str, is_true, is_undefined, prop, or_value,
}
use formspec_web.Policy.Shapes.{FormFeaturePolicyMode, optional}
use formspec_web.Policy.RecordLifecycleLimits.{Action, correctable, withdrawable, disputable}

-- The members of FormDefinition that carry policies, each undefined where it is missing.
pub record FormDefinition : Type 0 where
  pub extensions : Value
  pub governance : Value
  pub parties : Value

abbrev pub parse_boolean : Value → Value
parse_boolean value = if is_boolean value then value else undefined

-- The strings of a list of values, as values.
abbrev pub string_values : List Value → List Value
string_values [] = []
string_values (v ∷ vs) = if is_string v then v ∷ string_values vs else string_values vs

unfoldable pub parse_string_array : Value → Value
parse_string_array value =
    if is_array value then arr (of_list (string_values (elements value))) else undefined

-- A window, from a value that is a plain object.
parse_window_block : Value → Value
parse_window_block block =
    if is_str (prop block "state") "open"
    then obj (field "state" (str "open") end)
    else if is_str (prop block "state") "closes-at" && is_string (prop block "closesAt")
    then obj (field "state" (str "closes-at") (field "closesAt" (prop block "closesAt") end))
    else if is_str (prop block "state") "closed"
    then (if is_string (prop block "closedAt")
        then obj (field "state" (str "closed") (field "closedAt" (prop block "closedAt") end))
        else obj (field "state" (str "closed") end))
    else if is_string (prop block "closesAt")
    then obj (field "closesAt" (prop block "closesAt") end)
    else undefined

unfoldable pub parse_record_lifecycle_window : Value → Value
unfolding parse_window_block
parse_record_lifecycle_window value =
    if is_plain_object value then parse_window_block value else undefined

-- `parseActionBlock(value) !== undefined`
abbrev pub is_action_block : Value → Bool
is_action_block value = is_plain_object value && is_boolean (prop value "enabled")

unfoldable pub parse_correctable_policy : Value → Value
parse_correctable_policy value =
    if not (is_action_block value)
    then undefined
    else obj (
        field "enabled" (prop value "enabled") (
          field "correctableFieldSet" (parse_string_array (prop value "correctableFieldSet")) (
            field "window" (parse_record_lifecycle_window (prop value "window")) (
              field "requiresEvidence" (parse_boolean (prop value "requiresEvidence"))
                (field "requiresReason" (parse_boolean (prop value "requiresReason")) end)))))

-- `value === s ? value : undefined`
abbrev pub only : String → Value → Value
only s value = if is_str value s then value else undefined

abbrev pub parse_party_scope : Value → Value
parse_party_scope value =
    if is_str value "any-party" || is_str value "all-parties-must-agree" then value else undefined

unfoldable pub parse_withdrawable_policy : Value → Value
parse_withdrawable_policy value =
    if not (is_action_block value)
    then undefined
    else obj (
        field "enabled" (prop value "enabled") (
          field "window" (parse_record_lifecycle_window (prop value "window")) (
            field "requiresReason" (parse_boolean (prop value "requiresReason")) (
              field "preDeterminationKernelMode"
                (only "applicant-withdrawn" (prop value "preDeterminationKernelMode"))
                (field "postDeterminationIntent"
                  (only "rescission-requested" (prop value "postDeterminationIntent"))
                  (field "requiresIssuerAcceptance"
                    (parse_boolean (prop value "requiresIssuerAcceptance"))
                    (field "partyScope" (parse_party_scope (prop value "partyScope")) end)))))))

unfoldable pub parse_disputable_policy : Value → Value
parse_disputable_policy value =
    if not (is_action_block value)
    then undefined
    else obj (
        field "enabled" (prop value "enabled") (
          field "window" (parse_record_lifecycle_window (prop value "window")) (
            field "requiresEvidence" (parse_boolean (prop value "requiresEvidence")) (
              field "requiresReason" (parse_boolean (prop value "requiresReason"))
                (field "signerOnly" (parse_boolean (prop value "signerOnly")) end)))))

unfoldable pub parse_action_policy : Action → Value → Value
parse_action_policy correctable value = parse_correctable_policy value
parse_action_policy withdrawable value = parse_withdrawable_policy value
parse_action_policy disputable value = parse_disputable_policy value

unfoldable pub record_lifecycle_block_enables_any_action : Value → Bool
record_lifecycle_block_enables_any_action value =
    is_object value
    && (is_true (prop (prop value "correctable") "enabled")
        || is_true (prop (prop value "withdrawable") "enabled")
        || is_true (prop (prop value "disputable") "enabled"))

abbrev policy_of_block : Value → Value
policy_of_block value = obj (
    field "correctable" (parse_correctable_policy (prop value "correctable")) (
      field "withdrawable" (parse_withdrawable_policy (prop value "withdrawable"))
        (field "disputable" (parse_disputable_policy (prop value "disputable")) end)))

unfoldable pub parse_record_lifecycle_block : Value → Value
parse_record_lifecycle_block value =
    if is_plain_object value && record_lifecycle_block_enables_any_action (policy_of_block value)
    then policy_of_block value
    else undefined

abbrev pub extension_value : FormDefinition → Value
extension_value definition = prop definition.extensions "x-formspec-record-lifecycle"

abbrev pub governance_value : FormDefinition → Value
governance_value definition = prop definition.governance "recordLifecycle"

unfoldable pub extract_record_lifecycle_policy : FormDefinition → Value
extract_record_lifecycle_policy definition =
    or_value (parse_record_lifecycle_block (governance_value definition))
      (parse_record_lifecycle_block (extension_value definition))

unfoldable pub extract_record_lifecycle_opt_in : FormDefinition → Option FormFeaturePolicyMode
extract_record_lifecycle_opt_in definition =
    if is_true (extension_value definition)
      || is_true (governance_value definition)
      || record_lifecycle_block_enables_any_action (extract_record_lifecycle_policy definition)
    then some optional
    else none
