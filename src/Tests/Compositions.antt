-- ===== src/Tests/Compositions.antt =====
-- Theorems on compositions and on extracted policies, at a demo composition and a form's definition.
use formspec_web.Common.{
  String, ◌≡◌, refl, ◌↔◌, true, false, ◌&&◌, Option, none, some, [], ◌∷◌, ok, done, all, is_empty,
  includes, str_eq, if◌then◌else◌,
}
use formspec_web.Js.{Value, undefined, bool, str, obj, end, field, get}
use formspec_web.Policy.Errors.{form}
use formspec_web.Policy.FeatureKeys.{
  RuntimeFeatureKey, has_key, multi_party, safe_address, screener,
}
use formspec_web.Policy.Shapes.{
  demo, CapabilityAvailability, available, demo_stub, unavailable, ResolvedRuntimeProfile,
}
use formspec_web.Policy.Validate.{ResolveInput}
use formspec_web.Policy.Resolver.{resolve_runtime_features}
use formspec_web.Policy.PortMap.{feature_port_names}
use formspec_web.Policy.Sentinel.{
  Adapter, ProvenanceMeta, is_unavailable_adapter, is_demo_stub_adapter, mark_demo_stub_adapter,
  assert_not_already_marked,
}
use formspec_web.Policy.Sentinel.Marks.{made, demo_stub_marked, Marked-exclusive}
use formspec_web.Policy.Composition.{Composition, availability_name, port_to_keys, slot_keys_of}
use formspec_web.Policy.Coherence.{
  check_adapter, check_port, check_key, assert_composition_coherence, freeze_composition,
}
use formspec_web.Policy.Coherence.Honesty.{is_coherent, is_served, assert_composition_coherence_iff}
use formspec_web.Policy.Coherence.Resolved.{resolve-enabled_served}
use formspec_web.Policy.RecordLifecycleLimits.{
  correctable, disputable, validate_record_lifecycle_window,
}
use formspec_web.Policy.RecordLifecycle.{merge_action_policy, resolve_action}
use formspec_web.Policy.ExtractLifecycle.{
  FormDefinition, parse_record_lifecycle_window, parse_correctable_policy, parse_action_policy,
}
use formspec_web.Policy.ExtractLifecycle.Overriding.{extracted_action_overrides_org}
use formspec_web.Policy.ExtractLifecycle.Accepted.{parse_record_lifecycle_window-valid}
use formspec_web.Tests.Samples.{origins, office_input}
use formspec_web.Tests.Policy.{resolver}

abbrev plain : Adapter
plain = record { unavailable_mark = none; demo_stub_mark = none }

abbrev screener_meta : ProvenanceMeta
screener_meta = record { feature_key = screener; reason = "fixed catalog" }

abbrev stub : Adapter
stub = record { unavailable_mark = none; demo_stub_mark = some screener_meta }

abbrev absent : Adapter
absent = record { unavailable_mark = some screener_meta; demo_stub_mark = none }

Marked-exclusive_example : (is_unavailable_adapter stub && is_demo_stub_adapter stub) ≡ false
unfolding is_unavailable_adapter is_demo_stub_adapter mark_demo_stub_adapter
    assert_not_already_marked
Marked-exclusive_example =
    Marked-exclusive stub (demo_stub_marked plain stub screener_meta (made plain refl refl) refl)

abbrev declared : RuntimeFeatureKey → CapabilityAvailability
declared multi_party = available
declared safe_address = available
declared screener = demo_stub
declared _ = unavailable

abbrev wired : String → Option Adapter
wired port =
    if str_eq port "screenerDocumentSource"
    then some stub
    else if includes
        ("safeAddressDirectory" ∷ "draftStore" ∷ "identityProvider" ∷ "submitTransport" ∷ []) port
    then some plain
    else some absent

abbrev fair : Composition
fair = record { mode = demo; instance_capabilities = declared; port = wired }

fair_accepted : freeze_composition fair ≡ ok fair
unfolding freeze_composition assert_composition_coherence check_key check_port check_adapter
    port_to_keys slot_keys_of is_unavailable_adapter is_demo_stub_adapter resolver
fair_accepted = refl

assert_composition_coherence_iff_example :
    (assert_composition_coherence fair ≡ done)
    ↔ ((key : RuntimeFeatureKey) → is_coherent fair key ≡ true)
assert_composition_coherence_iff_example = assert_composition_coherence_iff fair

abbrev demo_input : ResolveInput
demo_input = record office_input { mode = demo }

names_of_declared :
    (k : RuntimeFeatureKey)
    → demo_input.instance_of k ≡ availability_name (fair.instance_capabilities k)
names_of_declared multi_party = refl
names_of_declared _ = refl

demo_profile : (p : ResolvedRuntimeProfile) × (resolve_runtime_features origins demo_input ≡ ok p)
unfolding resolver
demo_profile = (_, refl)

screener_on : has_key demo_profile.0.enabled screener ≡ true
unfolding resolver demo_profile
screener_on = refl

resolve-enabled_served_example :
    (is_empty (feature_port_names screener) ≡ false)
    × (all (λ p. is_served fair screener (fair.port p)) (feature_port_names screener) ≡ true)
resolve-enabled_served_example =
    resolve-enabled_served origins fair fair demo_input demo_profile.0 fair_accepted
      names_of_declared demo_profile.1 screener screener_on

abbrev disputable_block : Value
disputable_block = obj (
    field "enabled" (bool true) (
      field "signerOnly" (str "yes") (field "window" (obj (field "state" (str "closed") end)) end)))

parse_record_lifecycle_window-valid_example :
    validate_record_lifecycle_window form disputable
      (parse_record_lifecycle_window (obj (field "state" (str "closed") end)))
    ≡ done
parse_record_lifecycle_window-valid_example =
    parse_record_lifecycle_window-valid form disputable (obj (field "state" (str "closed") end))

abbrev org_evidence : Value
org_evidence = obj (field "enabled" (bool true) (field "requiresEvidence" (bool true) end))

abbrev silent_block : Value
silent_block = obj (field "enabled" (bool true) end)

extracted_action_overrides_org_example :
    resolve_action correctable
      (merge_action_policy org_evidence (parse_action_policy correctable silent_block))
    ≡ resolve_action correctable (parse_action_policy correctable silent_block)
unfolding parse_action_policy parse_correctable_policy get
extracted_action_overrides_org_example =
    extracted_action_overrides_org org_evidence correctable silent_block refl

abbrev lifecycle_form : FormDefinition
lifecycle_form = record {
  extensions = undefined;
  governance = obj (field "recordLifecycle" (obj (field "disputable" disputable_block end)) end);
  parties = undefined;
}
