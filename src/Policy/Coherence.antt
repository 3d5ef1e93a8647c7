-- ===== src/Policy/Coherence.antt =====
-- The coherence of a composition (src/policy/composition-coherence.ts): what it declares of each feature
-- against the adapters it wires.
pub mod Honesty
pub mod Resolved
use Prim.Native.String
use formspec_web.Common.{
  lookup, insert, String, Bool, true, false, not, ◌&&◌, ◌||◌, Option, none, some, List, [], ◌∷◌,
  ◌++◌, map, Result, ok, err, ◌>>◌, done, throw_if, each, any, is_empty, length, ltb, or_else,
  str_eq, if◌then◌else◌,
}
use formspec_web.Policy.FeatureKeys.{
  RuntimeFeatureKey, runtime_feature_keys, key_name, key_eq, multi_party,
}
use formspec_web.Policy.Shapes.{
  Mode, demo, production, CapabilityAvailability, available, demo_stub, unavailable,
}
use formspec_web.Policy.Sentinel.{Adapter, is_unavailable_adapter, is_demo_stub_adapter}
use formspec_web.Policy.PortMap.{feature_port_names}
use formspec_web.Policy.Composition.{
  Composition, CompositionIncoherenceKind, sentinel_without_unavailable_declaration,
  unavailable_declaration_without_sentinel, demo_stub_adapter_in_production_composition,
  demo_stub_adapter_without_demo_stub_declaration, demo_stub_declaration_without_demo_stub_adapter,
  available_declaration_paired_with_marked_adapter, shared_slot_declaration_conflict,
  feature_without_port_binding, CompositionIncoherenceError, availability_name, is_unavailable,
  is_demo_stub, is_available, is_production, concat, slot_keys_of, is_shared, is_live,
  shared_slot_message,
}

-- `throw new CompositionIncoherenceError(featureKey, kind, message)`
abbrev incoherent :
    RuntimeFeatureKey → CompositionIncoherenceKind → String → CompositionIncoherenceError
incoherent key kind message = record { feature_key = key; kind = kind; message = message }

-- The beginnings of the messages.
abbrev declares : RuntimeFeatureKey → String → String
declares key rest = concat ("instanceCapabilities declares \"" ∷ key_name key ∷ "\" " ∷ rest ∷ [])

abbrev adapter_for : RuntimeFeatureKey → String → String → String
adapter_for key port rest =
    concat ("Adapter for \"" ∷ key_name key ∷ "\" (port \"" ∷ port ∷ "\") is marked " ∷ rest ∷ [])

-- The tests of one wired port of one key, after the shared slot's.
unfoldable pub check_adapter :
    Composition
    → RuntimeFeatureKey
    → String
    → Adapter
    → Result CompositionIncoherenceError (Unit {0})
unfolding concat
check_adapter composition key port adapter =
    let declared = composition.instance_capabilities key in
    let adapter_is_unavailable = is_unavailable_adapter adapter in
    let adapter_is_demo_stub = is_demo_stub_adapter adapter in
    let slot_keys = slot_keys_of key port in
    let explain = shared_slot_message slot_keys (is_shared slot_keys) composition port in
    do
      throw_if (adapter_is_unavailable && not (is_unavailable declared)) (
          incoherent key sentinel_without_unavailable_declaration (
            adapter_for key port (
              concat (
                "unavailable, but instanceCapabilities declared \""
                ∷ availability_name declared
                ∷ "\". The composition must declare \"unavailable\"."
                ∷ []))))
      throw_if (is_unavailable declared && not adapter_is_unavailable) (
          incoherent key unavailable_declaration_without_sentinel (
            declares key (
              concat (
                "unavailable, but the wired adapter at port \"" ∷ port
                ∷ "\" carries no UNAVAILABLE_ADAPTER sentinel. Wire an unavailable* adapter or change the declaration."
                ∷ []))))
      throw_if (adapter_is_demo_stub && is_production composition.mode) (
          incoherent key demo_stub_adapter_in_production_composition (
            adapter_for key port
              "demo-stub, but the composition is in production mode. Demo stubs MUST NOT back production capabilities (ADR-0011 §Instance capabilities)."))
      throw_if (adapter_is_demo_stub && not (is_demo_stub declared)) (
          incoherent key demo_stub_adapter_without_demo_stub_declaration (
            explain (
              adapter_for key port (
                concat (
                  "demo-stub, but instanceCapabilities declared \""
                  ∷ availability_name declared
                  ∷ "\". The composition must declare \"demo-stub\"."
                  ∷ [])))))
      throw_if (is_demo_stub declared && not adapter_is_demo_stub) (
          incoherent key demo_stub_declaration_without_demo_stub_adapter (
            explain (
              declares key (
                concat (
                  "demo-stub, but the wired adapter at port \"" ∷ port
                  ∷ "\" carries no DEMO_STUB_ADAPTER marker. Wire a stub* adapter or change the declaration."
                  ∷ [])))))
      throw_if (is_available declared && (adapter_is_unavailable || adapter_is_demo_stub)) (
          incoherent key
            (if is_shared slot_keys
              then shared_slot_declaration_conflict
              else available_declaration_paired_with_marked_adapter)
            (explain (
              declares key (
                concat (
                  "available, but the wired adapter at port \""
                  ∷ port
                  ∷ "\" carries a provenance marker ("
                  ∷ (if adapter_is_unavailable then "unavailable" else "demo-stub")
                  ∷ "). Wire a real production adapter or change the declaration."
                  ∷ [])))))

-- One port of one key. A key of a live shared slot may opt out of it.
unfoldable pub check_port :
    Composition → RuntimeFeatureKey → String → Result CompositionIncoherenceError (Unit {0})
unfolding concat
check_port composition key port = elim (composition.port port) [
  | none ↦ err (
      incoherent key feature_without_port_binding (
        declares key (
          concat (
            availability_name (composition.instance_capabilities key)
            ∷ ", but the backing port \""
            ∷ port
            ∷ "\" is not wired."
            ∷ []))))
  | some adapter ↦
      if is_shared (slot_keys_of key port)
        && is_unavailable (composition.instance_capabilities key)
        && is_live composition (slot_keys_of key port)
      then done
      else check_adapter composition key port adapter
]

unfoldable pub check_key :
    Composition → RuntimeFeatureKey → Result CompositionIncoherenceError (Unit {0})
unfolding concat
check_key composition key =
    let declared = composition.instance_capabilities key in
    if key_eq key multi_party && is_unavailable declared
    then done
    else if is_empty (feature_port_names key)
    then throw_if (not (is_unavailable declared)) (
        incoherent key feature_without_port_binding (
          declares key (
            concat (
              availability_name declared
              ∷ ", but FEATURE_PORT_MAP has no backing port binding yet. Keep the capability \"unavailable\" until the feature build lands a concrete adapter-backed port contract."
              ∷ []))))
    else each (check_port composition key) (feature_port_names key)

unfoldable pub assert_composition_coherence :
    Composition → Result CompositionIncoherenceError (Unit {0})
assert_composition_coherence composition = each (check_key composition) runtime_feature_keys

unfoldable pub freeze_composition : Composition → Result CompositionIncoherenceError Composition
freeze_composition composition = do assert_composition_coherence composition; ok composition
