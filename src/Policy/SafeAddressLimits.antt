-- ===== src/Policy/SafeAddressLimits.antt =====
-- The validation of safe-address limits (src/policy/resolver.ts, `validateSafeAddressLimits` and
-- `validateSafeAddressField`).
use formspec_web.Common.{
  String, Bool, false, not, ◌&&◌, ◌||◌, ◌>>◌, done, throw_if, each, all, str_eq, if◌then◌else◌,
}
use formspec_web.Js.{
  Value, str, is_undefined, is_array, is_non_empty_string, is_plain_object, is_str, elements, prop,
  starts_with_slash,
}
use formspec_web.Policy.Errors.{RuntimePolicyDocumentKind, Checked, invalid}
use formspec_web.Policy.Checks.{validate_optional_string_array}

-- isSafeAddressAccessClass
abbrev pub is_safe_address_access_class : String → Bool
is_safe_address_access_class s =
    str_eq s "safe-address" || str_eq s "safe-contact" || str_eq s "safe-employer"

-- The same test of an `unknown` value.
abbrev pub is_access_class_value : Value → Bool
is_access_class_value (str s) = is_safe_address_access_class s
is_access_class_value v = false

-- isSafeAddressReceiptPostureTier
abbrev pub is_safe_address_receipt_posture_tier : Value → Bool
is_safe_address_receipt_posture_tier v = is_str v "verifier-grade" || is_str v "phase-1-fallback"

abbrev pub is_json_pointer : Value → Bool
is_json_pointer (str s) = starts_with_slash s
is_json_pointer v = false

unfoldable pub validate_safe_address_field : RuntimePolicyDocumentKind → Value → Checked (Unit {0})
validate_safe_address_field layer field = do
  throw_if (not (is_plain_object field))
      (invalid layer "limits.safeAddress.fields entries must be objects")
  throw_if (not (is_json_pointer (prop field "path")))
      (invalid layer "limits.safeAddress.fields[].path must be an RFC 6901-style JSON pointer")
  throw_if (not (is_access_class_value (prop field "accessClass"))) (
      invalid layer
        "limits.safeAddress.fields[].accessClass must be safe-address | safe-contact | safe-employer")
  validate_optional_string_array layer "limits.safeAddress.fields[].visibleTo"
      (prop field "visibleTo")
  validate_optional_string_array layer "limits.safeAddress.fields[].plaintextAudiences"
      (prop field "plaintextAudiences")
  validate_optional_string_array layer "limits.safeAddress.fields[].effectiveAudiences"
      (prop field "effectiveAudiences")

unfoldable pub validate_safe_address_limits : Value → RuntimePolicyDocumentKind → Checked (Unit {0})
validate_safe_address_limits value layer = if is_undefined value then done else do
  throw_if (not (is_plain_object value)) (invalid layer "limits.safeAddress must be an object")
  throw_if
      (not (is_undefined (prop value "receiptPostureTier"))
        && not (is_safe_address_receipt_posture_tier (prop value "receiptPostureTier")))
      (invalid layer
        "limits.safeAddress.receiptPostureTier must be verifier-grade | phase-1-fallback")
  validate_optional_string_array layer "limits.safeAddress.enabledClasses"
      (prop value "enabledClasses")
  throw_if
      (is_array (prop value "enabledClasses")
        && not (all is_access_class_value (elements (prop value "enabledClasses"))))
      (invalid layer
        "limits.safeAddress.enabledClasses entries must be safe-address | safe-contact | safe-employer")
  validate_optional_string_array layer "limits.safeAddress.acpJurisdictionsAccepted"
      (prop value "acpJurisdictionsAccepted")
  validate_optional_string_array layer "limits.safeAddress.authorizedAudiences"
      (prop value "authorizedAudiences")
  throw_if
      (not (is_undefined (prop value "substituteAddressDirectoryRef"))
        && not (is_non_empty_string (prop value "substituteAddressDirectoryRef")))
      (invalid layer "limits.safeAddress.substituteAddressDirectoryRef must be a non-empty string")
  throw_if (not (is_undefined (prop value "fields")) && not (is_array (prop value "fields")))
      (invalid layer "limits.safeAddress.fields must be an array")
  each (validate_safe_address_field layer) (elements (prop value "fields"))
  throw_if
      (not (is_undefined (prop value "rendererHints"))
        && not (is_plain_object (prop value "rendererHints")))
      (invalid layer "limits.safeAddress.rendererHints must be an object")
