-- ===== src/Policy/MultiParty.antt =====
-- Multi-party limits (src/policy/resolver.ts, `validateMultiPartyLimits`,
-- `validateMultiPartyCardinality` and `resolveMultiPartyPolicy`).
pub mod Cardinality
pub mod Party
pub mod WellFormed
pub mod Resolved
use Prim.Native.String
use formspec_web.Common.{
  ℕ, String, Bool, true, false, not, ◌&&◌, ◌||◌, List, [], ◌∷◌, map, Result, ok, err, ◌>>◌, ◌>>=◌,
  done, throw_if, filter, includes, is_empty, str_eq, ltb, length, if◌then◌else◌,
}
use formspec_web.Js.{
  ℤ, pos, negsuc, ltb_ℤ, Value, undefined, str, arr, obj, int, get, put, items, of_list,
  is_undefined, is_array, is_non_empty_string, is_plain_object, is_str, elements, strings, prop,
  fields_of, or_value,
}
use formspec_web.Policy.Errors.{RuntimePolicyDocumentKind, form, Checked, invalid}
use formspec_web.Policy.Checks.{validate_optional_string_array}

-- `Number.isInteger(v) && v >= 1`
abbrev pub is_positive_integer : Value → Bool
is_positive_integer (int n) = not (ltb_ℤ n (pos 1))
is_positive_integer v = false

-- `Number.isInteger(max) && max >= min`, where `min` is an integer already.
abbrev pub is_integer_from : Value → Value → Bool
is_integer_from (int a) (int b) = not (ltb_ℤ b a)
is_integer_from a b = false

unfoldable pub validate_multi_party_cardinality :
    RuntimePolicyDocumentKind → Value → Checked (Unit {0})
validate_multi_party_cardinality layer value = do
  throw_if (not (is_plain_object value))
      (invalid layer "limits.multiParty.parties[].cardinality must be an object")
  throw_if (not (is_positive_integer (prop value "min")))
      (invalid layer "limits.multiParty.parties[].cardinality.min must be a positive integer")
  throw_if
      (not (is_str (prop value "max") "unbounded")
        && not (is_integer_from (prop value "min") (prop value "max")))
      (invalid layer
        "limits.multiParty.parties[].cardinality.max must be unbounded or an integer >= min")

abbrev pub is_multi_party_role : Value → Bool
is_multi_party_role v =
    is_str v "coEqual"
    || is_str v "asymmetricPrimary"
    || is_str v "asymmetricSecondary"
    || is_str v "guardianFor"

-- The audiences that a role shares with its safe-address policy.
abbrev pub audience_intersection : Value → List String
audience_intersection party =
    filter (includes (strings (elements (prop party "visibleTo"))))
      (strings (elements (prop party "safeAddressAudience")))

-- The string that a value is, once it is known to be one.
abbrev pub text_of : Value → String
text_of (str s) = s
text_of v = ""

unfoldable pub validate_audience_intersection :
    RuntimePolicyDocumentKind → Value → Checked (Unit {0})
validate_audience_intersection layer party =
    throw_if
      (is_array (prop party "safeAddressAudience")
        && is_array (prop party "visibleTo")
        && is_empty (audience_intersection party))
      (invalid layer (
        String.◌++◌
          (String.◌++◌ "limits.multiParty.parties roleId \"" (text_of (prop party "roleId")))
          "\" has an empty safe-address x party-policy audience intersection"))

-- The tests of one party that do not look at the parties before it.
unfoldable pub validate_party_body : RuntimePolicyDocumentKind → Value → Checked (Unit {0})
validate_party_body layer party = do
  throw_if (not (is_multi_party_role (prop party "role"))) (
      invalid layer
        "limits.multiParty.parties[].role must be coEqual | asymmetricPrimary | asymmetricSecondary | guardianFor")
  throw_if
      (not (is_str (prop party "visibilityScope") "shared")
        && not (is_str (prop party "visibilityScope") "scoped"))
      (invalid layer "limits.multiParty.parties[].visibilityScope must be shared | scoped")
  validate_multi_party_cardinality layer (prop party "cardinality")
  validate_optional_string_array layer "limits.multiParty.parties[].visibleTo"
      (prop party "visibleTo")
  validate_optional_string_array layer "limits.multiParty.parties[].editableBy"
      (prop party "editableBy")
  validate_optional_string_array layer "limits.multiParty.parties[].signedBy"
      (prop party "signedBy")
  validate_optional_string_array layer "limits.multiParty.parties[].safeAddressAudience"
      (prop party "safeAddressAudience")
  validate_audience_intersection layer party

-- The loop over the parties; `role_ids` is the set of the role ids met so far.
unfoldable pub validate_parties :
    RuntimePolicyDocumentKind → List String → List Value → Checked (Unit {0})
validate_parties layer role_ids [] = done
validate_parties layer role_ids (party ∷ parties) =
    let role_id = text_of (prop party "roleId") in
    let rest = validate_parties layer (role_id ∷ role_ids) parties in
    do
      throw_if (not (is_plain_object party))
          (invalid layer "limits.multiParty.parties entries must be objects")
      throw_if (not (is_non_empty_string (prop party "roleId")))
          (invalid layer "limits.multiParty.parties[].roleId must be a non-empty string")
      throw_if (includes role_ids role_id) (
          invalid layer (
            String.◌++◌ (String.◌++◌ "limits.multiParty.parties roleId \"" role_id)
              "\" is duplicated"))
      validate_party_body layer party
      rest

abbrev pub is_invitation_channel : Value → Bool
is_invitation_channel v = is_str v "magic-link" || is_str v "wos-task" || is_str v "out-of-band"

unfoldable pub validate_deadline_policy : RuntimePolicyDocumentKind → Value → Checked (Unit {0})
validate_deadline_policy layer value = if is_undefined value then done else do
  throw_if (not (is_plain_object value))
      (invalid layer "limits.multiParty.deadlinePolicy must be an object")
  throw_if
      (not (is_str (prop value "expirationAction") "void-submission")
        && not (is_str (prop value "expirationAction") "convert-to-partial"))
      (invalid layer
        "limits.multiParty.deadlinePolicy.expirationAction must be void-submission | convert-to-partial")
  throw_if
      (not (is_undefined (prop value "perPartyDeadline"))
        && not (is_non_empty_string (prop value "perPartyDeadline")))
      (invalid layer "limits.multiParty.deadlinePolicy.perPartyDeadline must be a non-empty string")

unfoldable pub validate_multi_party_limits : Value → RuntimePolicyDocumentKind → Checked (Unit {0})
validate_multi_party_limits value layer = if is_undefined value then done else do
  throw_if (not (is_plain_object value)) (invalid layer "limits.multiParty must be an object")
  throw_if
      (not (is_str (prop value "tier") "coEqual") && not (is_str (prop value "tier") "asymmetric"))
      (invalid layer "limits.multiParty.tier must be coEqual | asymmetric")
  throw_if
      (not (is_array (prop value "parties")) || ltb (length (elements (prop value "parties"))) 2)
      (invalid layer "limits.multiParty.parties must declare at least two party role slots")
  validate_parties layer [] (elements (prop value "parties"))
  throw_if
      (not (is_undefined (prop value "invitationChannel"))
        && not (is_invitation_channel (prop value "invitationChannel")))
      (invalid layer
        "limits.multiParty.invitationChannel must be magic-link | wos-task | out-of-band")
  validate_deadline_policy layer (prop value "deadlinePolicy")

-- `{ ...party, cardinality: { ...party.cardinality } }`
copy_party : Value → Value
copy_party party =
    obj (put (fields_of party) "cardinality" (obj (fields_of (prop party "cardinality"))))

-- `policy.deadlinePolicy ? { ...policy.deadlinePolicy } : undefined`
copy_deadline : Value → Value
copy_deadline (obj fs) = obj fs
copy_deadline v = undefined

unfoldable pub resolve_multi_party_policy : Value → Checked Value
unfolding copy_party copy_deadline
resolve_multi_party_policy value = do
  validate_multi_party_limits value form
  throw_if (is_undefined value)
      (invalid form "multiParty is enabled but limits.multiParty is not declared")
  let with_channel =
      put (fields_of value) "invitationChannel"
        (or_value (prop value "invitationChannel") (str "out-of-band"))
  let with_parties =
      put with_channel "parties" (arr (of_list (map copy_party (elements (prop value "parties")))))
  ok (obj (put with_parties "deadlinePolicy" (copy_deadline (prop value "deadlinePolicy"))))
