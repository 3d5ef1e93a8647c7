-- ===== src/Policy/ExtractParties.antt =====
-- The multi-party policy that a form's definition declares (src/policy/extract-form-policy.ts), and the
-- requests that one extension makes. A property that the source gives the value undefined is a property
-- with that value.
pub mod Accepted
use formspec_web.Common.{
  ℕ, suc, zero, String, Bool, true, false, not, ◌&&◌, ◌||◌, Option, none, some, List, [], ◌∷◌,
  filter, length, ltb, ◌==◌, if◌then◌else◌,
}
use formspec_web.Js.{
  Value, undefined, int, pos, str, arr, obj, end, field, of_list, elements, is_plain_object,
  is_array, is_str, is_true, is_undefined, is_non_empty_string, prop, or_value,
}
use formspec_web.Policy.Shapes.{FormFeaturePolicyMode, optional, PolicyDocument}
use formspec_web.Policy.MultiParty.{is_multi_party_role, is_invitation_channel}
use formspec_web.Policy.ExtractLifecycle.{FormDefinition}

-- `value === true ? mode : undefined`, of an extension.
abbrev pub opted : FormDefinition → String → FormFeaturePolicyMode → Option FormFeaturePolicyMode
opted definition key mode = if is_true (prop definition.extensions key) then some mode else none

unfoldable pub extract_offline_submit_opt_in : FormDefinition → Option FormFeaturePolicyMode
extract_offline_submit_opt_in definition = opted definition "x-formspec-offline-submit" optional

unfoldable pub extract_payment_requirement : FormDefinition → Option FormFeaturePolicyMode
extract_payment_requirement definition =
    opted definition "x-formspec-payment-required" FormFeaturePolicyMode.required

unfoldable pub extract_embeddable_opt_in : FormDefinition → Option FormFeaturePolicyMode
extract_embeddable_opt_in definition = opted definition "x-formspec-embeddable" optional

unfoldable pub string_array : Value → Value
string_array value =
    if is_array value
    then arr (of_list (filter is_non_empty_string (elements value)))
    else undefined

-- A positive integer, or undefined.
abbrev pub positive_integer : Value → Value
positive_integer (int (pos (suc n))) = int (pos (suc n))
positive_integer v = undefined

abbrev pub non_empty_string : Value → Value
non_empty_string value = if is_non_empty_string value then value else undefined

unfoldable pub parse_multi_party_cardinality : Value → Value
parse_multi_party_cardinality value =
    if not (is_plain_object value)
    then obj (field "min" (int (pos 1)) (field "max" (int (pos 1)) end))
    else let min = or_value (positive_integer (prop value "min")) (int (pos 1)) in
      obj (
        field "min" min (
          field "max"
            (if is_str (prop value "max") "unbounded"
              then str "unbounded"
              else or_value (positive_integer (prop value "max")) min)
            end))

unfoldable pub parse_assurance_floor : Value → Value
parse_assurance_floor value =
    if not (is_plain_object value)
    then undefined
    else if is_non_empty_string (prop value "ial")
        || is_non_empty_string (prop value "aal")
        || is_non_empty_string (prop value "fal")
    then obj (
        field "ial" (non_empty_string (prop value "ial")) (
          field "aal" (non_empty_string (prop value "aal"))
            (field "fal" (non_empty_string (prop value "fal")) end)))
    else undefined

unfoldable pub parse_multi_party_deadline_policy : Value → Value
parse_multi_party_deadline_policy value =
    if not (is_plain_object value)
    then undefined
    else if is_str (prop value "expirationAction") "convert-to-partial"
        || is_str (prop value "expirationAction") "void-submission"
    then obj (
        field "expirationAction" (prop value "expirationAction")
          (field "perPartyDeadline" (non_empty_string (prop value "perPartyDeadline")) end))
    else undefined

-- `block.visibilityScope` if it is a known scope, or 'shared'.
abbrev pub scope_of : Value → Value
scope_of value = if is_str value "scoped" || is_str value "shared" then value else str "shared"

-- The role that is built from a block that passed the tests.
abbrev pub role_block : Value → Value
role_block value = obj (
    field "roleId" (prop value "roleId") (
      field "label" (non_empty_string (prop value "label")) (
        field "role" (prop value "role") (
          field "cardinality" (parse_multi_party_cardinality (prop value "cardinality")) (
            field "assuranceFloor" (parse_assurance_floor (prop value "assuranceFloor")) (
              field "visibilityScope" (scope_of (prop value "visibilityScope")) (
                field "visibleTo" (string_array (prop value "visibleTo")) (
                  field "editableBy" (string_array (prop value "editableBy")) (
                    field "signedBy" (string_array (prop value "signedBy")) (
                      field "safeAddressAudience" (string_array (prop value "safeAddressAudience"))
                        end))))))))))

unfoldable pub parse_multi_party_role : Value → Option Value
parse_multi_party_role value =
    if not (is_plain_object value)
    then none
    else if not (is_non_empty_string (prop value "roleId"))
    then none
    else if not (is_multi_party_role (prop value "role"))
    then none
    else some (role_block value)

-- `values.map(parseMultiPartyRole).filter((party) => party !== undefined)`
abbrev pub parse_parties : List Value → List Value
parse_parties [] = []
parse_parties (v ∷ vs) = elim (parse_multi_party_role v) [
  | none ↦ parse_parties vs
  | some party ↦ party ∷ parse_parties vs
]

abbrev pub is_tier : Value → Bool
is_tier value = is_str value "coEqual" || is_str value "asymmetric"

-- The policy that is built from a block that passed the tests.
abbrev pub policy_block : Value → Value
policy_block value = obj (
    field "tier" (prop value "tier") (
      field "parties" (arr (of_list (parse_parties (elements (prop value "parties"))))) (
        field "invitationChannel"
          (if is_invitation_channel (prop value "invitationChannel")
            then prop value "invitationChannel"
            else str "out-of-band")
          (field "deadlinePolicy" (parse_multi_party_deadline_policy (prop value "deadlinePolicy"))
            end))))

unfoldable pub parse_multi_party_block : Value → Option Value
parse_multi_party_block value =
    let parties = parse_parties (elements (prop value "parties")) in
    if not (is_plain_object value)
    then none
    else if not (is_tier (prop value "tier"))
    then none
    else if ltb (length parties) 2
    then none
    else if not (length parties == length (elements (prop value "parties")))
    then none
    else some (policy_block value)

abbrev pub multi_party_carrier : FormDefinition → Value
multi_party_carrier definition =
    or_value (prop definition.extensions "x-formspec-multi-party")
      (or_value (prop definition.governance "multiParty") definition.parties)

unfoldable pub extract_multi_party_policy : FormDefinition → Option PolicyDocument
extract_multi_party_policy definition =
    elim (parse_multi_party_block (multi_party_carrier definition)) [
      | none ↦ none
      | some policy ↦ some (record {
        features = ("multiParty", some "required") ∷ [];
        limits = obj (field "multiParty" policy end);
        record_lifecycle = undefined;
      })
    ]
