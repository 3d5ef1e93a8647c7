-- ===== src/Policy/Resolver.antt =====
-- The runtime feature resolver (src/policy/resolver.ts, `resolveRuntimeFeatures` and
-- `mergeFeatureLimits`).
pub mod Decisions
pub mod Profile
use formspec_web.Common.{
  String, Bool, true, false, not, ◌&&◌, Option, none, some, List, [], ◌∷◌, Result, ok, err, ◌>>◌,
  ◌>>=◌, or_else, str_eq, if◌then◌else◌,
}
use formspec_web.Js.{
  Value, undefined, obj, end, spread, fields_of, is_undefined, is_plain_object, prop,
}
use formspec_web.Policy.FeatureKeys.{
  RuntimeFeatureKey, runtime_feature_keys, key_name, key_eq, has_key, multi_party, safe_address,
  record_lifecycle,
}
use formspec_web.Policy.Shapes.{
  Mode, CapabilityAvailability, unavailable, capability_of, OrgFeaturePolicyMode, org_mode_of,
  FormFeaturePolicyMode, form_mode_of, PolicyDocument, DisabledReason, ResolvedRuntimeProfile,
  SafeAddressRuntimeConfig,
}
use formspec_web.Policy.Errors.{Checked}
use formspec_web.Policy.Decide.{Decision, enabled, disabled, decide}
use formspec_web.Policy.MultiParty.{resolve_multi_party_policy}
use formspec_web.Policy.SafeAddress.{resolve_safe_address_policy}
use formspec_web.Policy.RecordLifecycle.{resolve_record_lifecycle_policy}
use formspec_web.Policy.Validate.{ResolveInput, validate_input}

-- `features[key]`
abbrev pub mode_at : List (String × Option String) → String → Option String
mode_at [] name = none
mode_at ((k, mode) ∷ features) name = if str_eq k name then mode else mode_at features name

abbrev pub narrow {ℓ} : {A : Type ℓ} → (String → Option A) → Option String → Option A
narrow f none = none
narrow f (some s) = f s

-- What the three documents say of a key. After validation every string is one of its closed set.
abbrev pub capability_at : ResolveInput → RuntimeFeatureKey → CapabilityAvailability
capability_at input key = or_else (capability_of (input.instance_of key)) unavailable

abbrev pub org_mode_at : ResolveInput → RuntimeFeatureKey → Option OrgFeaturePolicyMode
org_mode_at input key = narrow org_mode_of (mode_at input.org_policy.features (key_name key))

abbrev pub form_mode_at : ResolveInput → RuntimeFeatureKey → Option FormFeaturePolicyMode
form_mode_at input key = narrow form_mode_of (mode_at input.form_policy.features (key_name key))

unfoldable pub merge_feature_limits : Value → Value → Value
merge_feature_limits org_limit form_limit =
    if is_undefined org_limit
    then form_limit
    else if is_undefined form_limit
    then org_limit
    else if is_plain_object org_limit && is_plain_object form_limit
    then obj (spread (spread end (fields_of org_limit)) (fields_of form_limit))
    else form_limit

-- The limit of a key in the two documents, merged.
abbrev pub limit_at : ResolveInput → RuntimeFeatureKey → Value
limit_at input key =
    merge_feature_limits (prop input.org_policy.limits (key_name key))
      (prop input.form_policy.limits (key_name key))

-- The set of the enabled keys, the map of the disabled ones and the limits, as the loop fills them.
pub record Tally : Type 0 where
  pub on : List RuntimeFeatureKey
  pub off : List (RuntimeFeatureKey × DisabledReason)
  pub limits : List (RuntimeFeatureKey × Value)

with_limit :
    RuntimeFeatureKey → Value → List (RuntimeFeatureKey × Value) → List (RuntimeFeatureKey × Value)
with_limit key limit limits = if is_undefined limit then limits else (key, limit) ∷ limits

-- A decision on a key, ahead of those on the keys after it.
record_decision : ResolveInput → RuntimeFeatureKey → Decision → Tally → Tally
unfolding with_limit
record_decision input key enabled rest = record rest {
  on = key ∷ rest.on;
  limits = with_limit key (limit_at input key) rest.limits;
}
record_decision input key (disabled reason) rest = record rest { off = (key, reason) ∷ rest.off }

unfoldable pub decide_key : ResolveInput → RuntimeFeatureKey → Checked Decision
decide_key input key =
    decide input.mode key (capability_at input key) (org_mode_at input key) (form_mode_at input key)

-- The loop over the keys; the first error ends it.
unfoldable pub resolve_keys : ResolveInput → List RuntimeFeatureKey → Checked Tally
unfolding record_decision
resolve_keys input [] = ok (record { on = []; off = []; limits = [] })
resolve_keys input (key ∷ keys) = do
  decision ← decide_key input key
  rest ← resolve_keys input keys
  ok (record_decision input key decision rest)

-- `limits[key]`
abbrev pub limit_of : List (RuntimeFeatureKey × Value) → RuntimeFeatureKey → Value
limit_of [] key = undefined
limit_of ((k, limit) ∷ limits) key = if key_eq k key then limit else limit_of limits key

resolve_multi_party_if : Bool → Value → Checked Value
resolve_multi_party_if true limit = resolve_multi_party_policy limit
resolve_multi_party_if false limit = ok undefined

resolve_safe_address_if : Bool → Value → Value → Checked (Option SafeAddressRuntimeConfig)
resolve_safe_address_if true org_limit form_limit = do
  config ← resolve_safe_address_policy org_limit form_limit
  ok (some config)
resolve_safe_address_if false org_limit form_limit = ok none

module _ (origin_of : String → Option String) where
  unfoldable pub resolve_runtime_features : ResolveInput → Checked ResolvedRuntimeProfile
  unfolding resolve_multi_party_if resolve_safe_address_if
  resolve_runtime_features input = do
    validate_input origin_of input
    tally ← resolve_keys input runtime_feature_keys
    parties ←
        resolve_multi_party_if (has_key tally.on multi_party) (limit_of tally.limits multi_party)
    addresses ←
        resolve_safe_address_if (has_key tally.on safe_address)
          (prop input.org_policy.limits "safeAddress") (prop input.form_policy.limits "safeAddress")
    ok (record {
      mode = input.mode;
      enabled = tally.on;
      disabled = tally.off;
      limits = tally.limits;
      record_lifecycle =
          if has_key tally.on record_lifecycle
          then resolve_record_lifecycle_policy input.org_policy.record_lifecycle
              input.form_policy.record_lifecycle
          else undefined;
      multi_party = parties;
      safe_address = addresses;
    })
