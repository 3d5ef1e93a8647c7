-- ===== src/Policy/ExtractLifecycle/Overriding.antt =====
-- What the resolver makes of an extracted lifecycle policy.
use formspec_web.Common.{◌≡◌, refl, true, false, arith, Bool-cases, inl, inr, String}
use formspec_web.Js.{
  Value, obj, Fields, end, field, get, has, spread, get-spread, HasDistinctKeys, prop, is_undefined,
  fields_of,
}
use formspec_web.Policy.RecordLifecycleLimits.{Action, correctable, withdrawable, disputable}
use formspec_web.Policy.RecordLifecycle.{
  merge_action_policy, resolve_action, resolve_correctable, resolve_withdrawable,
  resolve_disputable,
}
use formspec_web.Policy.ExtractLifecycle.{
  is_action_block, parse_correctable_policy, parse_withdrawable_policy, parse_disputable_policy,
  parse_action_policy,
}

-- The properties of an action, of whatever kind, that the resolver reads.
merge_of_spread :
    (org_action : Value) (f : Fields) (k : String)
    → HasDistinctKeys f
    → has f k ≡ true
    → prop (merge_action_policy org_action (obj f)) k ≡ get f k
unfolding merge_action_policy
merge_of_spread org_action f k h there =
    ground (arith, get-spread (spread end (fields_of org_action)) f k h)

-- The properties that a resolved action is made of.
AgreesOn : Action → Value → Value → Type 0
AgreesOn correctable m n =
    (prop m "enabled" ≡ prop n "enabled")
    × (prop m "correctableFieldSet" ≡ prop n "correctableFieldSet")
    × (prop m "window" ≡ prop n "window")
    × (prop m "requiresEvidence" ≡ prop n "requiresEvidence")
    × (prop m "requiresReason" ≡ prop n "requiresReason")
AgreesOn withdrawable m n =
    (prop m "enabled" ≡ prop n "enabled")
    × (prop m "window" ≡ prop n "window")
    × (prop m "requiresReason" ≡ prop n "requiresReason")
    × (prop m "preDeterminationKernelMode" ≡ prop n "preDeterminationKernelMode")
    × (prop m "postDeterminationIntent" ≡ prop n "postDeterminationIntent")
    × (prop m "requiresIssuerAcceptance" ≡ prop n "requiresIssuerAcceptance")
    × (prop m "partyScope" ≡ prop n "partyScope")
AgreesOn disputable m n =
    (prop m "enabled" ≡ prop n "enabled")
    × (prop m "window" ≡ prop n "window")
    × (prop m "requiresEvidence" ≡ prop n "requiresEvidence")
    × (prop m "requiresReason" ≡ prop n "requiresReason")
    × (prop m "signerOnly" ≡ prop n "signerOnly")

resolve_of_AgreesOn :
    (action : Action) (m n : Value)
    → AgreesOn action m n
    → resolve_action action m ≡ resolve_action action n
unfolding AgreesOn resolve_action resolve_correctable resolve_withdrawable resolve_disputable
resolve_of_AgreesOn correctable m n h = rw (h.0, h.1, h.2, h.3, h.4) refl
resolve_of_AgreesOn withdrawable m n h = rw (h.0, h.1, h.2, h.3, h.4, h.5, h.6) refl
resolve_of_AgreesOn disputable m n h = rw (h.0, h.1, h.2, h.3, h.4) refl

abbrev correctable_fields : Value → Value → Value → Value → Value → Fields
correctable_fields a b c d e = field "enabled" a (
    field "correctableFieldSet" b
      (field "window" c (field "requiresEvidence" d (field "requiresReason" e end))))

abbrev withdrawable_fields : Value → Value → Value → Value → Value → Value → Value → Fields
withdrawable_fields a b c d e f g = field "enabled" a (
    field "window" b (
      field "requiresReason" c (
        field "preDeterminationKernelMode" d (
          field "postDeterminationIntent" e
            (field "requiresIssuerAcceptance" f (field "partyScope" g end))))))

abbrev disputable_fields : Value → Value → Value → Value → Value → Fields
disputable_fields a b c d e = field "enabled" a (
    field "window" b
      (field "requiresEvidence" c (field "requiresReason" d (field "signerOnly" e end))))

module _ (org_action : Value) where
  correctable_AgreesOn :
      (a b c d e : Value)
      → AgreesOn correctable
          (merge_action_policy org_action (obj (correctable_fields a b c d e)))
          (obj (correctable_fields a b c d e))
  unfolding AgreesOn has
  correctable_AgreesOn a b c d e =
      let distinct : HasDistinctKeys (correctable_fields a b c d e) =
        (refl, (refl, (refl, (refl, (refl, tt))))) in
      (
        merge_of_spread org_action (correctable_fields a b c d e) "enabled" distinct refl,
        merge_of_spread org_action (correctable_fields a b c d e) "correctableFieldSet" distinct
            refl,
        merge_of_spread org_action (correctable_fields a b c d e) "window" distinct refl,
        merge_of_spread org_action (correctable_fields a b c d e) "requiresEvidence" distinct refl,
        merge_of_spread org_action (correctable_fields a b c d e) "requiresReason" distinct refl,
      )

  withdrawable_AgreesOn :
      (a b c d e f g : Value)
      → AgreesOn withdrawable
          (merge_action_policy org_action (obj (withdrawable_fields a b c d e f g)))
          (obj (withdrawable_fields a b c d e f g))
  unfolding AgreesOn has
  withdrawable_AgreesOn a b c d e f g =
      let distinct : HasDistinctKeys (withdrawable_fields a b c d e f g) =
        (refl, (refl, (refl, (refl, (refl, (refl, (refl, tt))))))) in
      (
        merge_of_spread org_action (withdrawable_fields a b c d e f g) "enabled" distinct refl,
        merge_of_spread org_action (withdrawable_fields a b c d e f g) "window" distinct refl,
        merge_of_spread org_action (withdrawable_fields a b c d e f g) "requiresReason" distinct
            refl,
        merge_of_spread org_action (withdrawable_fields a b c d e f g) "preDeterminationKernelMode"
            distinct refl,
        merge_of_spread org_action (withdrawable_fields a b c d e f g) "postDeterminationIntent"
            distinct refl,
        merge_of_spread org_action (withdrawable_fields a b c d e f g) "requiresIssuerAcceptance"
            distinct refl,
        merge_of_spread org_action (withdrawable_fields a b c d e f g) "partyScope" distinct refl,
      )

  disputable_AgreesOn :
      (a b c d e : Value)
      → AgreesOn disputable
          (merge_action_policy org_action (obj (disputable_fields a b c d e)))
          (obj (disputable_fields a b c d e))
  unfolding AgreesOn has
  disputable_AgreesOn a b c d e =
      let distinct : HasDistinctKeys (disputable_fields a b c d e) =
        (refl, (refl, (refl, (refl, (refl, tt))))) in
      (
        merge_of_spread org_action (disputable_fields a b c d e) "enabled" distinct refl,
        merge_of_spread org_action (disputable_fields a b c d e) "window" distinct refl,
        merge_of_spread org_action (disputable_fields a b c d e) "requiresEvidence" distinct refl,
        merge_of_spread org_action (disputable_fields a b c d e) "requiresReason" distinct refl,
        merge_of_spread org_action (disputable_fields a b c d e) "signerOnly" distinct refl,
      )

  action_AgreesOn :
      (action : Action) (v : Value)
      → is_undefined (parse_action_policy action v) ≡ false
      → AgreesOn action
          (merge_action_policy org_action (parse_action_policy action v))
          (parse_action_policy action v)
  unfolding parse_action_policy parse_correctable_policy parse_withdrawable_policy
      parse_disputable_policy
  action_AgreesOn correctable v h = elim (Bool-cases (is_action_block v)) [
    | inl block ↦ rw block (correctable_AgreesOn _ _ _ _ _)
    | inr other ↦ cc
  ]
  action_AgreesOn withdrawable v h = elim (Bool-cases (is_action_block v)) [
    | inl block ↦ rw block (withdrawable_AgreesOn _ _ _ _ _ _ _)
    | inr other ↦ cc
  ]
  action_AgreesOn disputable v h = elim (Bool-cases (is_action_block v)) [
    | inl block ↦ rw block (disputable_AgreesOn _ _ _ _ _)
    | inr other ↦ cc
  ]

  -- Where the extractor finds a policy of an action in the form's definition, the resolved action is
  -- that of the form's policy alone: nothing of the org's policy of the action is left in it.
  pub extracted_action_overrides_org :
      (action : Action) (v : Value)
      → is_undefined (parse_action_policy action v) ≡ false
      → resolve_action action (merge_action_policy org_action (parse_action_policy action v))
        ≡ resolve_action action (parse_action_policy action v)
  extracted_action_overrides_org action v h =
      resolve_of_AgreesOn action _ _ (action_AgreesOn action v h)
