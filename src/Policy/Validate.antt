-- ===== src/Policy/Validate.antt =====
-- The checks of the input documents (src/policy/resolver.ts, `validateInput` and `validateEmbedLimits`).
-- The browser's URL parser is the parameter `origin_of`: the origin of an absolute URL, or none where
-- `new URL` throws.
use Prim.Native.String
use formspec_web.Common.{
  String, Bool, true, false, not, Option, none, some, err, ◌>>◌, done, throw_if, each, is_some,
  str_eq, if◌then◌else◌,
}
use formspec_web.Js.{Value, str, is_undefined, is_object, is_array, elements, prop}
use formspec_web.Policy.FeatureKeys.{
  RuntimeFeatureKey, runtime_feature_keys, key_name, is_runtime_feature_key,
}
use formspec_web.Policy.Shapes.{
  PolicyDocument, Mode, is_capability_availability, is_org_feature_policy_mode,
  is_form_feature_policy_mode,
}
use formspec_web.Policy.Errors.{
  RuntimePolicyDocumentKind, instance_document, org, form, Checked, invalid,
}
use formspec_web.Policy.MultiParty.{validate_multi_party_limits}
use formspec_web.Policy.SafeAddressLimits.{validate_safe_address_limits}
use formspec_web.Policy.RecordLifecycleLimits.{validate_record_lifecycle_policy}

-- ResolveRuntimeFeaturesInput; `instance` holds the string that each key is declared with.
pub record ResolveInput : Type 0 where
  pub mode : Mode
  pub instance_of : RuntimeFeatureKey → String
  pub org_policy : PolicyDocument
  pub form_policy : PolicyDocument

abbrev quoted : String → String → String → String
quoted before name after = String.◌++◌ before (String.◌++◌ name after)

validate_capability : (RuntimeFeatureKey → String) → RuntimeFeatureKey → Checked (Unit {0})
validate_capability instance_of key =
    throw_if (not (is_capability_availability (instance_of key))) (
      invalid instance_document
        (quoted "capability \"" (key_name key) "\" must be available | demo-stub | unavailable"))

-- `mode !== undefined && !isMode(mode)`
abbrev pub is_bad_mode : (String → Bool) → Option String → Bool
is_bad_mode is_mode none = false
is_bad_mode is_mode (some mode) = not (is_mode mode)

mode_text : Option String → String
mode_text none = "undefined"
mode_text (some mode) = mode

-- One property of a `features` object. Property names are unique, so the value stands beside its name.
validate_feature :
    RuntimePolicyDocumentKind → (String → Bool) → String × Option String → Checked (Unit {0})
validate_feature layer is_mode (candidate, mode) = do
  throw_if (not (is_runtime_feature_key candidate))
      (invalid layer (quoted "unknown feature key \"" candidate "\""))
  throw_if (is_bad_mode is_mode mode) (
      invalid layer (quoted "invalid mode \"" (mode_text mode) (quoted "\" for \"" candidate "\"")))

module _ (origin_of : String → Option String) where
  -- `parsed.origin !== entry`
  abbrev pub differs : Option String → String → Bool
  differs none entry = true
  differs (some origin) entry = not (str_eq origin entry)

  unfoldable pub validate_origin : Value → Checked (Unit {0})
  validate_origin (str entry) = do
    throw_if (str_eq entry "")
        (invalid org "limits.embed.allowedOrigins entries must be non-empty strings")
    if str_eq entry "*" then done else do
      throw_if (not (is_some (origin_of entry))) (
          invalid org (quoted "limits.embed.allowedOrigins entry \"" entry "\" is not a valid URL"))
      throw_if (differs (origin_of entry) entry) (
          invalid org (
            quoted "limits.embed.allowedOrigins entry \"" entry
              "\" must be an origin (no path / query / fragment)"))
  validate_origin v =
      err (invalid org "limits.embed.allowedOrigins entries must be non-empty strings")

  unfoldable pub validate_embed_limits : Value → Checked (Unit {0})
  validate_embed_limits value = if is_undefined value then done else do
    throw_if (not (is_object value))
        (invalid org "limits.embed must be an object with an allowedOrigins array")
    throw_if (not (is_array (prop value "allowedOrigins")))
        (invalid org "limits.embed.allowedOrigins must be an array")
    each validate_origin (elements (prop value "allowedOrigins"))

  unfoldable pub validate_input : ResolveInput → Checked (Unit {0})
  unfolding validate_capability validate_feature mode_text
  validate_input input = do
    each (validate_capability input.instance_of) runtime_feature_keys
    each (validate_feature org (λ m. is_org_feature_policy_mode m)) input.org_policy.features
    each (validate_feature form (λ m. is_form_feature_policy_mode m)) input.form_policy.features
    validate_embed_limits (prop input.org_policy.limits "embed")
    validate_multi_party_limits (prop input.org_policy.limits "multiParty") org
    validate_multi_party_limits (prop input.form_policy.limits "multiParty") form
    validate_safe_address_limits (prop input.org_policy.limits "safeAddress") org
    validate_safe_address_limits (prop input.form_policy.limits "safeAddress") form
    validate_record_lifecycle_policy org input.org_policy.record_lifecycle
    validate_record_lifecycle_policy form input.form_policy.record_lifecycle
