-- ===== src/Policy/SafeAddress.antt =====
-- The resolution of safe-address limits (src/policy/resolver.ts, `resolveSafeAddressPolicy` and its
-- helpers).
pub mod Audiences
pub mod Resolved
use Prim.Native.String
use formspec_web.Common.{
  ℕ, String, Bool, true, false, not, ◌&&◌, ◌||◌, Option, none, some, List, [], ◌∷◌, map, Result, ok,
  err, ◌>>◌, ◌>>=◌, done, throw_if, each, filter, all, includes, is_empty, str_eq, ltb, or_else,
  or_option, if◌then◌else◌,
}
use formspec_web.Js.{
  Value, undefined, str, arr, obj, items, is_undefined, is_array, is_non_empty_string,
  is_plain_object, is_string, is_str, elements, strings, prop, or_value, starts_with_slash,
}
use formspec_web.Policy.FeatureKeys.{safe_address}
use formspec_web.Policy.Shapes.{SafeAddressFieldPolicy, SafeAddressRuntimeConfig, RendererHints}
use formspec_web.Policy.Errors.{
  RuntimePolicyDocumentKind, org, form, Checked, invalid, policy, unsupported_required_feature,
}
use formspec_web.Policy.Checks.{
  validate_optional_string_array, string_value, string_array_from, non_empty_string_array_from,
  unique,
}
use formspec_web.Policy.SafeAddressLimits.{is_safe_address_access_class}

-- An optional list of strings, as it is read after validation.
audiences_of : Value → Option (List String)
audiences_of (arr xs) = some (strings (items xs))
audiences_of v = none

-- A string, as it is read after validation.
text_of : Value → String
text_of (str s) = s
text_of v = ""

-- One entry of `fieldPolicies`: the cast of a validated entry.
unfoldable pub field_policy : Value → SafeAddressFieldPolicy
unfolding audiences_of text_of
field_policy entry = record {
  path = text_of (prop entry "path");
  label = prop entry "label";
  access_class = text_of (prop entry "accessClass");
  visible_to = audiences_of (prop entry "visibleTo");
  plaintext_audiences = audiences_of (prop entry "plaintextAudiences");
  effective_audiences = audiences_of (prop entry "effectiveAudiences");
}

abbrev pub field_policies : Value → List SafeAddressFieldPolicy
field_policies value = map field_policy (elements value)

-- The audiences that no list authorizes.
abbrev pub outside : List String → List String → List String
outside allowed xs = filter (λ x. not (includes allowed x)) xs

-- Those that the party policy does not let see the field, where it says who may.
abbrev pub not_visible : Option (List String) → List String → List String
not_visible none xs = []
not_visible (some visible) xs = outside visible xs

abbrev about : SafeAddressFieldPolicy → String → String
about field rest = String.◌++◌ (String.◌++◌ "safeAddress field \"" field.path) rest

-- The branch of a field that brings its effective audiences.
resolve_effective :
    SafeAddressFieldPolicy → List String → List String → Checked SafeAddressFieldPolicy
resolve_effective field effective defaults = do
  throw_if (is_empty effective)
      (invalid form (about field "\" has an empty effective audience intersection"))
  throw_if (not (is_empty (outside defaults effective))) (
      invalid form
        (about field "\" includes an effective audience not authorized by safe-address policy"))
  throw_if (not (is_empty (not_visible field.visible_to effective)))
      (invalid form (about field "\" includes an effective audience not allowed by party policy"))
  ok (record field { plaintext_audiences = some effective; effective_audiences = some effective })

-- The branch of a field whose audiences are computed.
resolve_plaintext :
    SafeAddressFieldPolicy → List String → Option (List String) → Checked SafeAddressFieldPolicy
resolve_plaintext field plaintext none = ok (record field { plaintext_audiences = some plaintext })
resolve_plaintext field plaintext (some visible) = do
  let intersection = filter (includes plaintext) visible
  throw_if (is_empty intersection) (
      invalid form
        (about field "\" has no audience allowed by both party policy and safe-address policy"))
  ok (record field { plaintext_audiences = some intersection })

abbrev plaintext_of : SafeAddressFieldPolicy → List String → List String
plaintext_of field defaults =
    filter (includes defaults) (or_else field.plaintext_audiences defaults)

unfoldable pub resolve_safe_address_field_audience :
    SafeAddressFieldPolicy → List String → Checked SafeAddressFieldPolicy
unfolding resolve_effective resolve_plaintext
resolve_safe_address_field_audience field defaults = elim field.effective_audiences [
  | some effective ↦ resolve_effective field effective defaults
  | none ↦ do
    throw_if (is_empty (plaintext_of field defaults)) (
        invalid form (about field "\" has no plaintext audience authorized by safe-address policy"))
    resolve_plaintext field (plaintext_of field defaults) field.visible_to
]

-- What the form's audiences, if it names any, leave of the org's.
restrict : List String → Option (List String) → List String
restrict org_audiences none = org_audiences
restrict org_audiences (some form_audiences) = filter (includes org_audiences) form_audiences

abbrev pub org_audiences : Value → List String
org_audiences org_value = or_else (string_array_from org_value) ("issuer_verification" ∷ [])

unfoldable pub resolve_safe_address_authorized_audiences : Value → Value → List String
unfolding restrict
resolve_safe_address_authorized_audiences org_value form_value =
    restrict (org_audiences org_value) (non_empty_string_array_from form_value)

unfoldable pub safe_address_tier_rank : String → ℕ
safe_address_tier_rank tier = if str_eq tier "verifier-grade" then 2 else 1

-- A posture tier, as it is read after validation.
tier_of : Value → Option String
tier_of (str s) = some s
tier_of v = none

-- Hints are kept if there is one.
hints : Option String → Option String → Option RendererHints
hints none none = none
hints mask label = some (record { mask_render_token = mask; reveal_affordance_label = label })

unfoldable pub safe_address_renderer_hints : Value → Option RendererHints
unfolding hints
safe_address_renderer_hints value =
    hints (string_value (prop value "maskRenderToken"))
      (string_value (prop value "revealAffordanceLabel"))

-- The loop of `fields.map(resolveSafeAddressFieldAudience)`.
resolve_fields : List SafeAddressFieldPolicy → List String → Checked (List SafeAddressFieldPolicy)
resolve_fields [] defaults = ok []
resolve_fields (field ∷ fields) defaults = do
  one ← resolve_safe_address_field_audience field defaults
  rest ← resolve_fields fields defaults
  ok (one ∷ rest)

-- The classes that the form or the org enables, or else those of the fields.
resolve_enabled_classes : Value → Value → List SafeAddressFieldPolicy → List String
resolve_enabled_classes org_limit form_limit fields =
    elim (non_empty_string_array_from (prop form_limit "enabledClasses")) [
      | some xs ↦ filter is_safe_address_access_class xs
      | none ↦ elim (non_empty_string_array_from (prop org_limit "enabledClasses")) [
        | some xs ↦ filter is_safe_address_access_class xs
        | none ↦ unique (map (λ f. f.access_class) fields)
      ]
    ]

abbrev resolve_jurisdictions : Value → Value → List String
resolve_jurisdictions org_limit form_limit =
    or_else
      (or_option (non_empty_string_array_from (prop form_limit "acpJurisdictionsAccepted"))
        (string_array_from (prop org_limit "acpJurisdictionsAccepted")))
      []

abbrev pub deployment_tier : Value → String
unfolding tier_of
deployment_tier org_limit =
    or_else (tier_of (prop org_limit "receiptPostureTier")) "phase-1-fallback"

abbrev resolved_tier : Value → Value → String
unfolding tier_of
resolved_tier org_limit form_limit =
    or_else (tier_of (prop form_limit "receiptPostureTier")) (deployment_tier org_limit)

unfoldable pub resolve_safe_address_policy : Value → Value → Checked SafeAddressRuntimeConfig
unfolding resolve_fields resolve_enabled_classes tier_of
resolve_safe_address_policy org_limit form_limit =
    let fields = field_policies (prop form_limit "fields") in
    let classes = resolve_enabled_classes org_limit form_limit fields in
    let audiences =
      resolve_safe_address_authorized_audiences (prop org_limit "authorizedAudiences")
        (prop form_limit "authorizedAudiences") in
    let jurisdictions = resolve_jurisdictions org_limit form_limit in
    let tier = resolved_tier org_limit form_limit in
    do
      throw_if (is_empty fields)
          (invalid form "safeAddress is enabled but no safe-* field policy was declared")
      throw_if (is_empty classes)
          (invalid form "safeAddress is enabled but no safe-* class was declared")
      throw_if (is_empty jurisdictions) (
          invalid org
            "safeAddress is enabled but no accepted protection jurisdiction is configured")
      throw_if (is_empty audiences)
          (invalid org "safeAddress is enabled but no authorized plaintext audience is configured")
      throw_if
          (ltb (safe_address_tier_rank (deployment_tier org_limit)) (safe_address_tier_rank tier))
          (policy (
            unsupported_required_feature safe_address (
              String.◌++◌ "safeAddress receiptPostureTier \"" (
                String.◌++◌ tier (
                  String.◌++◌ "\" exceeds deployment capability \""
                    (String.◌++◌ (deployment_tier org_limit) "\""))))))
      resolved ← resolve_fields fields audiences
      ok (record {
        enabled_classes = classes;
        receipt_posture_tier = tier;
        substitute_address_directory_ref =
            or_else
              (or_option (string_value (prop form_limit "substituteAddressDirectoryRef"))
                (string_value (prop org_limit "substituteAddressDirectoryRef")))
              "composition:safeAddressDirectory";
        acp_jurisdictions_accepted = jurisdictions;
        authorized_audiences = audiences;
        fields = resolved;
        renderer_hints =
            safe_address_renderer_hints
              (or_value (prop form_limit "rendererHints") (prop org_limit "rendererHints"));
      })
