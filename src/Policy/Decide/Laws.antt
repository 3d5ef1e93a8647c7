-- ===== src/Policy/Decide/Laws.antt =====
-- What a decision is, stated without the ladder of tests.
use formspec_web.Common.{
  String, ◌≡◌, ◌↔◌, ◌⊎◌, Option, true, false, arith, ok, err, not, ◌&&◌, ◌||◌, Bool, if◌then◌else◌,
}
use formspec_web.Policy.FeatureKeys.{RuntimeFeatureKey}
use formspec_web.Policy.Shapes.{
  Mode, CapabilityAvailability, available, demo_stub, unavailable, OrgFeaturePolicyMode,
  FormFeaturePolicyMode, DisabledReason, form_forbidden, org_forbidden, default_on_no_instance,
  optional_no_instance, not_requested,
}
use formspec_web.Policy.Errors.{
  Thrown, Checked, feature_policy_conflict, org_policy_unsatisfied, unsupported_required_feature,
  org_required_form_forbidden, form_required_org_forbidden, policy,
}
use formspec_web.Policy.Decide.{
  Decision, enabled, disabled, decide, can_satisfy, org_is_required, form_is_required,
  org_is_forbidden, form_is_forbidden, org_is_default_on, form_is_optional,
}

-- Some document asks for the feature, and none forbids it.
abbrev pub wanted : Option OrgFeaturePolicyMode → Option FormFeaturePolicyMode → Bool
wanted o f =
    not (org_is_forbidden o)
    && not (form_is_forbidden f)
    && (org_is_required o || form_is_required f || org_is_default_on o || form_is_optional f)

-- Some document requires the feature.
abbrev pub demanded : Option OrgFeaturePolicyMode → Option FormFeaturePolicyMode → Bool
demanded o f = org_is_required o || form_is_required f

-- One document requires the feature and the other forbids it.
abbrev pub contradictory : Option OrgFeaturePolicyMode → Option FormFeaturePolicyMode → Bool
contradictory o f =
    (org_is_required o && form_is_forbidden f) || (form_is_required f && org_is_forbidden o)

-- What a decision amounts to, without its reasons.
pub data Outcome : Type 0 where
  on off conflict unsatisfied : Outcome

abbrev pub outcome_of : Checked Decision → Outcome
outcome_of (ok enabled) = on
outcome_of (ok (disabled reason)) = off
outcome_of (err (policy (feature_policy_conflict k kind))) = conflict
outcome_of (err e) = unsatisfied

-- Contradictory documents come first, then a demand that the instance cannot meet; otherwise the
-- feature is on exactly if it is wanted and the instance can do it.
abbrev pub specified :
    Mode
    → CapabilityAvailability
    → Option OrgFeaturePolicyMode
    → Option FormFeaturePolicyMode
    → Outcome
specified m c o f =
    if contradictory o f
    then conflict
    else if demanded o f && not (can_satisfy m c)
    then unsatisfied
    else if wanted o f && can_satisfy m c
    then on
    else off

-- What an instance lacks that cannot do a feature.
abbrev pub shortfall : CapabilityAvailability → String
shortfall available = ""
shortfall demo_stub = "production composition cannot use a demo-stub capability"
shortfall unavailable = "instance capability is marked unavailable"

-- The errors that a key's modes call for where its decision throws.
abbrev pub Blames :
    Mode
    → RuntimeFeatureKey
    → CapabilityAvailability
    → Option OrgFeaturePolicyMode
    → Option FormFeaturePolicyMode
    → Thrown
    → Type 0
Blames m k c o f e =
    ((org_is_required o ≡ true)
      × (form_is_forbidden f ≡ true)
      × (e ≡ policy (feature_policy_conflict k org_required_form_forbidden)))
    ⊎ ((form_is_required f ≡ true)
        × (org_is_forbidden o ≡ true)
        × (e ≡ policy (feature_policy_conflict k form_required_org_forbidden)))
    ⊎ ((can_satisfy m c ≡ false)
        × (org_is_required o ≡ true)
        × (form_is_forbidden f ≡ false)
        × (e ≡ policy (org_policy_unsatisfied k (shortfall c))))
    ⊎ ((can_satisfy m c ≡ false)
        × (form_is_required f ≡ true)
        × (org_is_required o ≡ false)
        × (org_is_forbidden o ≡ false)
        × (e ≡ policy (unsupported_required_feature k (shortfall c))))

module _ (m : Mode) (k : RuntimeFeatureKey) (c : CapabilityAvailability)
    (o : Option OrgFeaturePolicyMode) (f : Option FormFeaturePolicyMode) where
  -- For every mode, capability, org mode and form mode, the decision is a conflict if one document
  -- requires the feature and the other forbids it; else unsatisfied if one requires it and the
  -- instance cannot do it; else on if it is wanted and the instance can do it; else off.
  pub decide-specified : outcome_of (decide m k c o f) ≡ specified m c o f
  unfolding decide
  decide-specified = ground arith

  pub decide-enabled_iff :
      (decide m k c o f ≡ ok enabled)
      ↔ ((contradictory o f ≡ false) × (wanted o f ≡ true) × (can_satisfy m c ≡ true))
  unfolding decide
  decide-enabled_iff = ground arith

  -- A feature that is off was forbidden, or is wanted and cannot be had, or is not wanted; the cause
  -- says which, and a form that forbids is named before an org that does.
  pub decide-disabled_cause :
      (reason : DisabledReason)
      → decide m k c o f ≡ ok (disabled reason)
      → reason.cause ≡ (
          if form_is_forbidden f
          then form_forbidden
          else if org_is_forbidden o
          then org_forbidden
          else if org_is_default_on o
          then default_on_no_instance
          else if form_is_optional f
          then optional_no_instance
          else not_requested)
  unfolding decide
  decide-disabled_cause reason h = ground arith
