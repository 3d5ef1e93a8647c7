-- ===== src/Tests/Policy.antt =====
-- Runs of the policy.
use formspec_web.Common.{each, ◌∷◌, [], ◌↔◌, ◌⊎◌, map, All, true, false, none, done, if◌then◌else◌}
use formspec_web.Js.{Value, undefined, obj, str, end, field, prop, elements}
use formspec_web.Policy.FeatureKeys.{safe_address, screener, runtime_feature_keys, has_key}
use formspec_web.Policy.Shapes.{
  production, available, demo_stub, OrgFeaturePolicyMode, default_on_no_instance,
  SafeAddressRuntimeConfig, DisabledReason,
}
use formspec_web.Policy.Errors.{org, form}
use formspec_web.Policy.Decide.{can_satisfy, disabled}
use formspec_web.Policy.Decide.Laws.{
  wanted, demanded, contradictory, outcome_of, off, decide-specified, decide-disabled_cause,
}
use formspec_web.Policy.Resolver.{org_mode_at, form_mode_at, capability_at, limit_of, limit_at}
use formspec_web.Policy.Resolver.Decisions.{on_keys, off_keys}
use formspec_web.Policy.Resolver.Profile.{
  resolve-enabled_iff, resolve_partition, resolve_demands_met, resolve_production_available,
  resolve_limits, resolve_configs,
}
use formspec_web.Policy.MultiParty.Cardinality.{IsOneOf}
use formspec_web.Policy.MultiParty.WellFormed.{
  IsMultiPartyConfig, role_ids, invitation_channels, validate_multi_party_limits_iff,
}
use formspec_web.Policy.MultiParty.Resolved.{
  resolve_multi_party_policy-IsMultiPartyConfig, resolve_multi_party_policy-total,
}
use formspec_web.Policy.SafeAddress.Resolved.{
  IsSafeConfig, resolve_safe_address_policy-IsSafeConfig,
}
use formspec_web.Policy.RecordLifecycleLimits.{correctable, validate_record_lifecycle_window}
use formspec_web.Policy.RecordLifecycle.{normalize_record_lifecycle_window}
use formspec_web.Policy.RecordLifecycle.Windows.{
  IsWindow, normalize_record_lifecycle_window-IsWindow, normalize_record_lifecycle_window_iff,
  Means, open_window,
}
use formspec_web.Tests.Samples.{parties_config, address_limits, address_form}
use formspec_web.Common.{◌≡◌, refl, ok, some}
use formspec_web.Policy.Shapes.{ResolvedRuntimeProfile}
use formspec_web.Policy.Resolver.{
  resolve_runtime_features, resolve_keys, merge_feature_limits, decide_key,
}
use formspec_web.Policy.Validate.{validate_origin, validate_input, validate_embed_limits}
use formspec_web.Policy.FeatureKeys.{is_runtime_feature_key, multi_party}
use formspec_web.Policy.Shapes.{capability_of, org_mode_of, form_mode_of}
use formspec_web.Policy.Decide.{decide}
use formspec_web.Policy.Checks.{
  validate_optional_string_array, string_value, string_array_from, non_empty_string_array_from,
  unique,
}
use formspec_web.Policy.MultiParty.{
  validate_multi_party_limits, validate_multi_party_cardinality, validate_audience_intersection,
  validate_party_body, validate_parties, validate_deadline_policy, resolve_multi_party_policy,
}
use formspec_web.Policy.SafeAddressLimits.{
  validate_safe_address_limits, validate_safe_address_field,
}
use formspec_web.Policy.SafeAddress.{
  resolve_safe_address_policy, field_policy, resolve_safe_address_field_audience,
  resolve_safe_address_authorized_audiences, safe_address_tier_rank, safe_address_renderer_hints,
}
use formspec_web.Policy.RecordLifecycleLimits.{validate_record_lifecycle_policy}
use formspec_web.Policy.RecordLifecycle.{resolve_record_lifecycle_policy}
use formspec_web.Js.{get, has, put, spread}
use formspec_web.Tests.Samples.{origins, office_input}

-- What a run of the resolver computes with.
unfoldable pub resolver : Unit {0}
unfolding each resolve_runtime_features resolve_keys merge_feature_limits decide_key validate_input
    validate_embed_limits is_runtime_feature_key capability_of org_mode_of form_mode_of decide
    validate_optional_string_array string_value string_array_from non_empty_string_array_from unique
    validate_multi_party_limits validate_multi_party_cardinality validate_audience_intersection
    validate_party_body validate_parties validate_deadline_policy resolve_multi_party_policy
    validate_safe_address_limits validate_safe_address_field resolve_safe_address_policy
    field_policy resolve_safe_address_field_audience resolve_safe_address_authorized_audiences
    safe_address_tier_rank safe_address_renderer_hints validate_record_lifecycle_policy
    resolve_record_lifecycle_policy validate_origin get has put spread
resolver = tt

unfoldable pub sample :
    (p : ResolvedRuntimeProfile) × (resolve_runtime_features origins office_input ≡ ok p)
unfolding resolver
sample = (_, refl)

-- The profile of the run: two features are on, and the posture is that of the deployment.
sample_enabled : sample.0.enabled ≡ safe_address ∷ multi_party ∷ []
unfolding resolver sample
sample_enabled = refl

resolve-enabled_iff_example : (has_key sample.0.enabled multi_party ≡ true) ↔ (
    (contradictory (org_mode_at office_input multi_party) (form_mode_at office_input multi_party)
      ≡ false)
    × (wanted (org_mode_at office_input multi_party) (form_mode_at office_input multi_party) ≡ true)
    × (can_satisfy production (capability_at office_input multi_party) ≡ true))
resolve-enabled_iff_example = resolve-enabled_iff origins office_input sample.0 sample.1 multi_party

resolve_partition_example :
    (sample.0.enabled ≡ on_keys office_input runtime_feature_keys)
    × (map (λ d. d.0) sample.0.disabled ≡ off_keys office_input runtime_feature_keys)
    × All (λ d. decide_key office_input d.0 ≡ ok (disabled d.1)) sample.0.disabled
resolve_partition_example = resolve_partition origins office_input sample.0 sample.1

resolve_demands_met_example :
    (contradictory (org_mode_at office_input safe_address) (form_mode_at office_input safe_address)
      ≡ false)
    × (demanded (org_mode_at office_input safe_address) (form_mode_at office_input safe_address)
          ≡ true
        → has_key sample.0.enabled safe_address ≡ true)
resolve_demands_met_example =
    resolve_demands_met origins office_input sample.0 sample.1 safe_address

pub multi_party_on : has_key sample.0.enabled multi_party ≡ true
unfolding resolver sample
multi_party_on = refl

resolve_production_available_example : capability_at office_input multi_party ≡ available
resolve_production_available_example =
    resolve_production_available origins office_input sample.0 sample.1 multi_party refl
      multi_party_on

resolve_limits_example : limit_of sample.0.limits multi_party ≡ (
    if has_key sample.0.enabled multi_party then limit_at office_input multi_party else undefined)
resolve_limits_example = resolve_limits origins office_input sample.0 sample.1 multi_party

resolve_configs_example :
    (has_key sample.0.enabled multi_party ≡ true → IsMultiPartyConfig sample.0.multi_party)
    × (has_key sample.0.enabled safe_address ≡ true
        → (config : SafeAddressRuntimeConfig) × (sample.0.safe_address ≡ some config)
          × IsSafeConfig address_limits address_form config)
unfolding get
resolve_configs_example = resolve_configs origins office_input sample.0 sample.1

-- For a known capability and modes.
decide-specified_example :
    outcome_of (decide production screener demo_stub (some OrgFeaturePolicyMode.default_on) none)
    ≡ off
unfolding can_satisfy
decide-specified_example =
    decide-specified production screener demo_stub (some OrgFeaturePolicyMode.default_on) none

abbrev screener_reason : DisabledReason
screener_reason = record {
  cause = default_on_no_instance;
  message =
      "screener marked default-on but production composition cannot use a demo-stub capability";
}

decide-disabled_cause_example : screener_reason.cause ≡ default_on_no_instance
unfolding decide
decide-disabled_cause_example =
    decide-disabled_cause production screener demo_stub (some OrgFeaturePolicyMode.default_on) none
      screener_reason refl

validate_multi_party_limits_iff_example :
    (validate_multi_party_limits parties_config form ≡ done)
    ↔ ((parties_config ≡ undefined) ⊎ IsMultiPartyConfig parties_config)
validate_multi_party_limits_iff_example = validate_multi_party_limits_iff parties_config form

parties_resolve : (r : Value) × (resolve_multi_party_policy parties_config ≡ ok r)
unfolding resolver
parties_resolve = (_, refl)

resolve_multi_party_policy-IsMultiPartyConfig_example :
    IsMultiPartyConfig parties_config
    × IsMultiPartyConfig parties_resolve.0
    × IsOneOf invitation_channels (prop parties_resolve.0 "invitationChannel")
    × (prop parties_resolve.0 "tier" ≡ prop parties_config "tier")
    × (role_ids (elements (prop parties_resolve.0 "parties"))
        ≡ role_ids (elements (prop parties_config "parties")))
resolve_multi_party_policy-IsMultiPartyConfig_example =
    resolve_multi_party_policy-IsMultiPartyConfig parties_config parties_resolve.0 parties_resolve.1

resolve_multi_party_policy-total_example :
    (r : Value) × (resolve_multi_party_policy parties_config ≡ ok r)
resolve_multi_party_policy-total_example =
    resolve_multi_party_policy-total parties_config
      resolve_multi_party_policy-IsMultiPartyConfig_example.0

addresses_resolve :
    (c : SafeAddressRuntimeConfig) × (resolve_safe_address_policy address_limits address_form
      ≡ ok c)
unfolding resolver
addresses_resolve = (_, refl)

resolve_safe_address_policy-IsSafeConfig_example :
    IsSafeConfig address_limits address_form addresses_resolve.0
resolve_safe_address_policy-IsSafeConfig_example =
    resolve_safe_address_policy-IsSafeConfig address_limits address_form addresses_resolve.0
      addresses_resolve.1

legacy_window :
    validate_record_lifecycle_window org correctable (obj (field "closesAt" (str "never") end))
    ≡ done
unfolding resolver validate_record_lifecycle_window
legacy_window = refl

normalize_record_lifecycle_window-IsWindow_example :
    IsWindow (normalize_record_lifecycle_window (obj (field "closesAt" (str "never") end)))
normalize_record_lifecycle_window-IsWindow_example =
    normalize_record_lifecycle_window-IsWindow org correctable
      (obj (field "closesAt" (str "never") end)) legacy_window

normalize_record_lifecycle_window_iff_example :
    (normalize_record_lifecycle_window (obj (field "closesAt" (str "never") end)) ≡ open_window)
    ↔ Means (field "closesAt" (str "never") end) open_window
normalize_record_lifecycle_window_iff_example =
    normalize_record_lifecycle_window_iff org correctable (field "closesAt" (str "never") end)
      open_window legacy_window
