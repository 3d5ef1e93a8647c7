-- ===== src/Policy/ExtractLifecycle/Accepted.antt =====
-- The extracted lifecycle policies that the resolver accepts, and when there is one.
use formspec_web.Common.{◌≡◌, refl, ◌↔◌, ◌⊎◌, true, false, not, some, done, arith}
use formspec_web.Js.{Value, null, or_value, undefined, get, has, prop, is_undefined, is_true}
use formspec_web.Policy.Errors.{RuntimePolicyDocumentKind}
use formspec_web.Policy.Shapes.{optional}
use formspec_web.Policy.RecordLifecycleLimits.{
  Action, disputable, validate_record_lifecycle_window, validate_record_lifecycle_action,
  validate_action_fields, validate_disputable, validate_optional_boolean,
}
use formspec_web.Policy.ExtractLifecycle.{
  FormDefinition, parse_window_block, parse_record_lifecycle_window, parse_disputable_policy,
  record_lifecycle_block_enables_any_action, parse_record_lifecycle_block,
  extract_record_lifecycle_policy, extract_record_lifecycle_opt_in, extension_value,
  governance_value,
}

-- Every window that the extractor parses is one that the resolver accepts, of whatever value.
pub parse_record_lifecycle_window-valid :
    (source : RuntimePolicyDocumentKind) (action : Action) (v : Value)
    → validate_record_lifecycle_window source action (parse_record_lifecycle_window v) ≡ done
unfolding parse_record_lifecycle_window parse_window_block validate_record_lifecycle_window get has
parse_record_lifecycle_window-valid source action v = ground arith

-- Every disputable policy that the extractor parses is one that the resolver accepts.
parse_disputable_policy-valid :
    (source : RuntimePolicyDocumentKind) (v : Value)
    → is_undefined (parse_disputable_policy v) ≡ false
    → validate_record_lifecycle_action source disputable (parse_disputable_policy v) ≡ done
unfolding parse_disputable_policy validate_record_lifecycle_action validate_action_fields
    validate_disputable validate_optional_boolean get
parse_disputable_policy-valid source v h =
    ground (arith, parse_record_lifecycle_window-valid source disputable (prop v "window"))

enables_undefined : record_lifecycle_block_enables_any_action undefined ≡ false
unfolding record_lifecycle_block_enables_any_action
enables_undefined = refl

-- A parsed block enables an action exactly if it is not undefined, and so does the first of two.
abbrev EnablesIfFound : Value → Type 0
EnablesIfFound v = record_lifecycle_block_enables_any_action v ≡ not (is_undefined v)

parse_record_lifecycle_block-EnablesIfFound :
    (v : Value) → EnablesIfFound (parse_record_lifecycle_block v)
unfolding parse_record_lifecycle_block
parse_record_lifecycle_block-EnablesIfFound v = ground (arith, enables_undefined)

or_value-EnablesIfFound :
    (v w : Value) → EnablesIfFound v → EnablesIfFound w → EnablesIfFound (or_value v w)
or_value-EnablesIfFound undefined w h k = k
or_value-EnablesIfFound null w h k = k
or_value-EnablesIfFound _ w h k = h

extract_record_lifecycle_policy-EnablesIfFound :
    (d : FormDefinition) → EnablesIfFound (extract_record_lifecycle_policy d)
unfolding extract_record_lifecycle_policy
extract_record_lifecycle_policy-EnablesIfFound d =
    or_value-EnablesIfFound _ _ (parse_record_lifecycle_block-EnablesIfFound (governance_value d))
      (parse_record_lifecycle_block-EnablesIfFound (extension_value d))

-- The extracted lifecycle policy asks for the feature exactly if one of the two carriers of the
-- definition is true or there is an extracted policy.
extract_record_lifecycle_opt_in_iff :
    (d : FormDefinition)
    → (extract_record_lifecycle_opt_in d ≡ some optional) ↔ (
        (is_true (extension_value d) ≡ true)
        ⊎ (is_true (governance_value d) ≡ true)
        ⊎ (is_undefined (extract_record_lifecycle_policy d) ≡ false))
unfolding extract_record_lifecycle_opt_in
extract_record_lifecycle_opt_in_iff d =
    ground (arith, extract_record_lifecycle_policy-EnablesIfFound d)
