-- ===== src/Policy/Decide.antt =====
-- The decision on one feature (src/policy/resolver.ts, `decide` and its helpers).
pub mod Laws
use Prim.Native.String
use formspec_web.Common.{
  String, Bool, true, false, not, ◌&&◌, ◌||◌, Option, none, some, Result, ok, err, if◌then◌else◌,
}
use formspec_web.Policy.FeatureKeys.{RuntimeFeatureKey, key_name}
use formspec_web.Policy.Shapes.{
  Mode, demo, production, CapabilityAvailability, available, demo_stub, unavailable,
  OrgFeaturePolicyMode, allowed, default_on, FormFeaturePolicyMode, optional, DisabledCause,
  org_forbidden, form_forbidden, optional_no_instance, default_on_no_instance, not_requested,
  DisabledReason,
}
use formspec_web.Policy.Errors.{
  RuntimePolicyError, unsupported_required_feature, feature_policy_conflict, org_policy_unsatisfied,
  org_required_form_forbidden, form_required_org_forbidden, Checked, policy,
}

-- `orgMode === 'required'` and its like.
abbrev pub org_is_required : Option OrgFeaturePolicyMode → Bool
org_is_required (some OrgFeaturePolicyMode.required) = true
org_is_required _ = false

abbrev pub org_is_forbidden : Option OrgFeaturePolicyMode → Bool
org_is_forbidden (some OrgFeaturePolicyMode.forbidden) = true
org_is_forbidden _ = false

abbrev pub org_is_default_on : Option OrgFeaturePolicyMode → Bool
org_is_default_on (some OrgFeaturePolicyMode.default_on) = true
org_is_default_on _ = false

-- `orgMode === 'allowed' || orgMode === undefined`
abbrev pub org_is_allowed_or_unset : Option OrgFeaturePolicyMode → Bool
org_is_allowed_or_unset (some OrgFeaturePolicyMode.allowed) = true
org_is_allowed_or_unset none = true
org_is_allowed_or_unset _ = false

abbrev pub form_is_required : Option FormFeaturePolicyMode → Bool
form_is_required (some FormFeaturePolicyMode.required) = true
form_is_required _ = false

abbrev pub form_is_forbidden : Option FormFeaturePolicyMode → Bool
form_is_forbidden (some FormFeaturePolicyMode.forbidden) = true
form_is_forbidden _ = false

abbrev pub form_is_optional : Option FormFeaturePolicyMode → Bool
form_is_optional (some FormFeaturePolicyMode.optional) = true
form_is_optional _ = false

pub data Decision : Type 0 where
  enabled : Decision
  disabled : DisabledReason → Decision

unfoldable pub can_satisfy : Mode → CapabilityAvailability → Bool
can_satisfy mode available = true
can_satisfy demo demo_stub = true
can_satisfy production demo_stub = false
can_satisfy mode unavailable = false

-- The last line of the source is reached only where the capability is satisfied.
pub reason_for_unavailable : Mode → CapabilityAvailability → String
reason_for_unavailable mode unavailable = "instance capability is marked unavailable"
reason_for_unavailable production demo_stub =
    "production composition cannot use a demo-stub capability"
reason_for_unavailable demo demo_stub = "unknown capability availability \"demo-stub\""
reason_for_unavailable mode available = "unknown capability availability \"available\""

abbrev because : RuntimeFeatureKey → String → String → DisabledCause → Decision
because key middle reason cause =
    disabled
      (record { cause = cause; message = String.◌++◌ (String.◌++◌ (key_name key) middle) reason })

unfoldable pub decide :
    Mode
    → RuntimeFeatureKey
    → CapabilityAvailability
    → Option OrgFeaturePolicyMode
    → Option FormFeaturePolicyMode
    → Checked Decision
unfolding can_satisfy reason_for_unavailable
decide mode key capability org_mode form_mode =
    let can_do = can_satisfy mode capability in
    let why = reason_for_unavailable mode capability in
    if org_is_required org_mode && form_is_forbidden form_mode
    then err (policy (feature_policy_conflict key org_required_form_forbidden))
    else if form_is_required form_mode && org_is_forbidden org_mode
    then err (policy (feature_policy_conflict key form_required_org_forbidden))
    else if org_is_required org_mode && not can_do
    then err (policy (org_policy_unsatisfied key why))
    else if form_is_required form_mode
    then (if not can_do then err (policy (unsupported_required_feature key why)) else ok enabled)
    else if org_is_required org_mode
    then ok enabled
    else if form_is_forbidden form_mode || org_is_forbidden org_mode
    then (if form_is_forbidden form_mode
        then ok (because key " forbidden by form policy" "" form_forbidden)
        else ok (because key " forbidden by org policy" "" org_forbidden))
    else if org_is_default_on org_mode
    then (if can_do
        then ok enabled
        else ok (because key " marked default-on but " why default_on_no_instance))
    else if form_is_optional form_mode && org_is_allowed_or_unset org_mode
    then (if can_do then ok enabled else ok (because key " optional but " why optional_no_instance))
    else ok (because key " not requested by form or org policy" "" not_requested)
