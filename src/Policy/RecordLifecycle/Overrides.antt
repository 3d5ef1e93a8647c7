-- ===== src/Policy/RecordLifecycle/Overrides.antt =====
-- What a form's policy of an action takes from the org's: the merged policy is not validated again.
use formspec_web.Common.{◌≡◌, ◌≢◌, ◌∙◌, refl, true, false, done, arith}
use formspec_web.Policy.Errors.{RuntimePolicyDocumentKind, org, form}
use formspec_web.Policy.RecordLifecycleLimits.{
  withdrawable, validate_record_lifecycle_action, validate_action_fields, validate_withdrawable,
}
use formspec_web.Policy.RecordLifecycle.Windows.{get_missing}
use formspec_web.Js.{
  Value, undefined, bool, str, obj, Fields, get, has, HasDistinctKeys, prop, or_value,
}
use formspec_web.Policy.RecordLifecycle.{
  merge_action_policy, resolve_correctable, resolve_withdrawable,
}
use formspec_web.Policy.RecordLifecycle.Actions.{prop-merge_action_policy}

refused :
    (source : RuntimePolicyDocumentKind) (v : Value)
    → prop v "postDeterminationIntent" ≡ str "rescission-requested"
    → prop v "requiresIssuerAcceptance" ≡ bool false
    → validate_record_lifecycle_action source withdrawable v ≢ done
unfolding validate_record_lifecycle_action validate_action_fields validate_withdrawable
refused source v asks without accepted = ground arith

module _ (o f : Fields) (org_distinct : HasDistinctKeys o) (form_distinct : HasDistinctKeys f) where
  evidence_of_resolved :
      prop (resolve_correctable (merge_action_policy (obj o) (obj f))) "requiresEvidence"
      ≡ or_value (prop (merge_action_policy (obj o) (obj f)) "requiresEvidence") (bool false)
  unfolding resolve_correctable get
  evidence_of_resolved = refl

  -- Where the form's policy has the property `requiresEvidence` with the value undefined, the
  -- resolved action does not require evidence, whatever the org's policy says.
  pub undefined_evidence_overrides_org :
      has f "requiresEvidence" ≡ true
      → get f "requiresEvidence" ≡ undefined
      → prop (resolve_correctable (merge_action_policy (obj o) (obj f))) "requiresEvidence"
        ≡ bool false
  undefined_evidence_overrides_org there missing = rw evidence_of_resolved (
      rw
        (prop-merge_action_policy o f org_distinct form_distinct "requiresEvidence", there, missing)
        refl)

  withdrawal_of_resolved :
      (prop (resolve_withdrawable (merge_action_policy (obj o) (obj f))) "postDeterminationIntent"
        ≡ prop (merge_action_policy (obj o) (obj f)) "postDeterminationIntent")
      × (prop
            (resolve_withdrawable (merge_action_policy (obj o) (obj f)))
            "requiresIssuerAcceptance"
          ≡ or_value
              (prop (merge_action_policy (obj o) (obj f)) "requiresIssuerAcceptance")
              (bool false))
  unfolding resolve_withdrawable get
  withdrawal_of_resolved = (refl, refl)

  -- Where the validator accepts the org's and the form's policy of withdrawals, the org's asks for
  -- rescission, and the form's does not mention the intent but says that no acceptance is required: the
  -- validator refuses, as a policy of either document, both the merged policy and the resolved action,
  -- which asks for rescission without acceptance.
  pub rescission_without_acceptance :
      validate_record_lifecycle_action org withdrawable (obj o) ≡ done
      → validate_record_lifecycle_action form withdrawable (obj f) ≡ done
      → get o "postDeterminationIntent" ≡ str "rescission-requested"
      → has f "postDeterminationIntent" ≡ false
      → get f "requiresIssuerAcceptance" ≡ bool false
      → let merged = merge_action_policy (obj o) (obj f) in
        ((source : RuntimePolicyDocumentKind)
          → (validate_record_lifecycle_action source withdrawable merged ≢ done)
            × (validate_record_lifecycle_action source withdrawable (resolve_withdrawable merged)
                ≢ done))
        × (prop (resolve_withdrawable merged) "postDeterminationIntent"
            ≡ str "rescission-requested")
        × (prop (resolve_withdrawable merged) "requiresIssuerAcceptance" ≡ bool false)
  rescission_without_acceptance org_accepted form_accepted intent silent refuses =
      let there : has f "requiresIssuerAcceptance" ≡ true =
        ground (arith, get_missing f "requiresIssuerAcceptance") in
      let v = merge_action_policy (obj o) (obj f) in
      let merged = prop-merge_action_policy o f org_distinct form_distinct in
      let asks : prop v "postDeterminationIntent" ≡ str "rescission-requested" =
        rw (merged "postDeterminationIntent", silent) intent in
      let without : prop v "requiresIssuerAcceptance" ≡ bool false =
        rw (merged "requiresIssuerAcceptance", there) refuses in
      let reads = withdrawal_of_resolved in
      let asks_still = reads.0 ∙ asks in
      let without_still : prop (resolve_withdrawable v) "requiresIssuerAcceptance" ≡ bool false =
        rw (reads.1, without) refl in
      (
        λ source. (
          refused source v asks without,
          refused source (resolve_withdrawable v) asks_still without_still,
        ),
        asks_still,
        without_still,
      )
