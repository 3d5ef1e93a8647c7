-- ===== src/Policy/Errors.antt =====
-- The typed configuration errors (src/policy/errors.ts) that the resolver and the load gates throw.
-- Each carries the fields of its class, and the reason from which its message is made.
use formspec_web.Common.{String, Result}
use formspec_web.Policy.FeatureKeys.{RuntimeFeatureKey}

pub data FeaturePolicyConflictKind : Type 0 where
  org_required_form_forbidden form_required_org_forbidden : FeaturePolicyConflictKind

pub data RuntimePolicyDocumentKind : Type 0 where
  instance_document org form : RuntimePolicyDocumentKind

pub data RuntimePolicyError : Type 0 where
  unsupported_required_feature : RuntimeFeatureKey → String → RuntimePolicyError
  feature_policy_conflict : RuntimeFeatureKey → FeaturePolicyConflictKind → RuntimePolicyError
  org_policy_unsatisfied : RuntimeFeatureKey → String → RuntimePolicyError
  invalid_runtime_policy : RuntimePolicyDocumentKind → String → RuntimePolicyError
  embed_origin_not_allowed : String → RuntimePolicyError

-- What the engine throws where code reads a property of null.
pub data Thrown : Type 0 where
  policy : RuntimePolicyError → Thrown
  type_error : Thrown

abbrev pub Checked : Type 0 → Type 0
Checked A = Result Thrown A

abbrev pub invalid : RuntimePolicyDocumentKind → String → Thrown
invalid kind reason = policy (invalid_runtime_policy kind reason)
