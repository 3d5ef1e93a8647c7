-- ===== src/Policy/Shapes.antt =====
-- The policy documents and the resolved profile (src/policy/policy-shapes.ts). A mode that the source
-- holds as a string of a closed set is a constructor here; the type guard that narrows the string
-- becomes the function that reads it.
use formspec_web.Common.{String, Bool, List, Option, none, some, is_some, str_eq, if◌then◌else◌}
use formspec_web.Js.{Value}
use formspec_web.Policy.FeatureKeys.{RuntimeFeatureKey}

pub data Mode : Type 0 where
  demo production : Mode

pub data CapabilityAvailability : Type 0 where
  available demo_stub unavailable : CapabilityAvailability

unfoldable pub capability_of : String → Option CapabilityAvailability
capability_of value =
    if str_eq value "available"
    then some available
    else if str_eq value "demo-stub"
    then some demo_stub
    else if str_eq value "unavailable"
    then some unavailable
    else none

-- isCapabilityAvailability
abbrev pub is_capability_availability : String → Bool
is_capability_availability value = is_some (capability_of value)

pub data OrgFeaturePolicyMode : Type 0 where
  forbidden allowed default_on required : OrgFeaturePolicyMode

unfoldable pub org_mode_of : String → Option OrgFeaturePolicyMode
org_mode_of value =
    if str_eq value "forbidden"
    then some forbidden
    else if str_eq value "allowed"
    then some allowed
    else if str_eq value "default-on"
    then some default_on
    else if str_eq value "required"
    then some required
    else none

-- isOrgFeaturePolicyMode
abbrev pub is_org_feature_policy_mode : String → Bool
is_org_feature_policy_mode value = is_some (org_mode_of value)

pub data FormFeaturePolicyMode : Type 0 where
  forbidden optional required : FormFeaturePolicyMode

unfoldable pub form_mode_of : String → Option FormFeaturePolicyMode
form_mode_of value =
    if str_eq value "forbidden"
    then some FormFeaturePolicyMode.forbidden
    else if str_eq value "optional"
    then some optional
    else if str_eq value "required"
    then some FormFeaturePolicyMode.required
    else none

-- isFormFeaturePolicyMode
abbrev pub is_form_feature_policy_mode : String → Bool
is_form_feature_policy_mode value = is_some (form_mode_of value)

-- An org or a form policy as it is read: `features` by its own property names, a value of `none`
-- being `undefined`; `limits` and `record_lifecycle` as `unknown` values, `undefined` if missing.
pub record PolicyDocument : Type 0 where
  pub features : List (String × Option String)
  pub limits : Value
  pub record_lifecycle : Value

pub data DisabledCause : Type 0 where
  instance_unavailable org_forbidden form_forbidden optional_no_instance : DisabledCause
  default_on_no_instance production_rejects_demo_stub not_requested : DisabledCause

pub record DisabledReason : Type 0 where
  pub cause : DisabledCause
  pub message : String

-- One field of a safe-address policy. The label is shown and never tested.
pub record SafeAddressFieldPolicy : Type 0 where
  pub path : String
  pub label : Value
  pub access_class : String
  pub visible_to : Option (List String)
  pub plaintext_audiences : Option (List String)
  pub effective_audiences : Option (List String)

pub record RendererHints : Type 0 where
  pub mask_render_token : Option String
  pub reveal_affordance_label : Option String

pub record SafeAddressRuntimeConfig : Type 0 where
  pub enabled_classes : List String
  pub receipt_posture_tier : String
  pub substitute_address_directory_ref : String
  pub acp_jurisdictions_accepted : List String
  pub authorized_audiences : List String
  pub fields : List SafeAddressFieldPolicy
  pub renderer_hints : Option RendererHints

pub record ResolvedRuntimeProfile : Type 0 where
  pub mode : Mode
  pub enabled : List RuntimeFeatureKey
  pub disabled : List (RuntimeFeatureKey × DisabledReason)
  pub limits : List (RuntimeFeatureKey × Value)
  pub record_lifecycle : Value
  pub multi_party : Value
  pub safe_address : Option SafeAddressRuntimeConfig
