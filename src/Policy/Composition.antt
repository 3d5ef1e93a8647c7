-- ===== src/Policy/Composition.antt =====
-- What a composition declares and wires, and the slots that features share
-- (src/policy/composition-coherence.ts).
use Prim.Native.String
use formspec_web.Common.{
  lookup, insert, String, Bool, true, false, not, Option, List, [], ◌∷◌, ◌++◌, map, any, is_empty,
  length, ltb, or_else, if◌then◌else◌,
}
use formspec_web.Policy.FeatureKeys.{RuntimeFeatureKey, runtime_feature_keys, key_name}
use formspec_web.Policy.Shapes.{
  Mode, demo, production, CapabilityAvailability, available, demo_stub, unavailable,
}
use formspec_web.Policy.Sentinel.{Adapter}
use formspec_web.Policy.PortMap.{feature_port_names}

-- CompositionLike: `port` is the slot with a name, or none where it is undefined.
pub record Composition : Type 0 where
  pub mode : Mode
  pub instance_capabilities : RuntimeFeatureKey → CapabilityAvailability
  pub port : String → Option Adapter

pub data CompositionIncoherenceKind : Type 0 where
  sentinel_without_unavailable_declaration : CompositionIncoherenceKind
  unavailable_declaration_without_sentinel : CompositionIncoherenceKind
  demo_stub_adapter_in_production_composition : CompositionIncoherenceKind
  demo_stub_adapter_without_demo_stub_declaration : CompositionIncoherenceKind
  demo_stub_declaration_without_demo_stub_adapter : CompositionIncoherenceKind
  available_declaration_paired_with_marked_adapter : CompositionIncoherenceKind
  shared_slot_declaration_conflict : CompositionIncoherenceKind
  feature_without_port_binding : CompositionIncoherenceKind

-- CompositionIncoherenceError
pub record CompositionIncoherenceError : Type 0 where
  pub feature_key : RuntimeFeatureKey
  pub kind : CompositionIncoherenceKind
  pub message : String

abbrev pub availability_name : CapabilityAvailability → String
availability_name available = "available"
availability_name demo_stub = "demo-stub"
availability_name unavailable = "unavailable"

abbrev pub is_unavailable : CapabilityAvailability → Bool
is_unavailable unavailable = true
is_unavailable _ = false

abbrev pub is_demo_stub : CapabilityAvailability → Bool
is_demo_stub demo_stub = true
is_demo_stub _ = false

abbrev pub is_available : CapabilityAvailability → Bool
is_available available = true
is_available _ = false

abbrev pub is_production : Mode → Bool
is_production production = true
is_production demo = false

unfoldable pub concat : List String → String
concat [] = ""
concat (s ∷ ss) = String.◌++◌ s (concat ss)

-- `ss.join(separator)`
unfoldable pub join : List String → String → String
join [] separator = ""
join (s ∷ ss) separator =
    let rest = join ss separator in
    if is_empty ss then s else String.◌++◌ s (String.◌++◌ separator rest)

abbrev PortToKeys : Type 0
PortToKeys = List (String × List RuntimeFeatureKey)

add_ports : RuntimeFeatureKey → List String → PortToKeys → PortToKeys
add_ports key [] m = m
add_ports key (port ∷ ports) m =
    add_ports key ports (insert m port (or_else (lookup m port) [] ++ key ∷ []))

add_keys : List RuntimeFeatureKey → PortToKeys → PortToKeys
unfolding add_ports
add_keys [] m = m
add_keys (key ∷ keys) m = add_keys keys (add_ports key (feature_port_names key) m)

unfoldable pub port_to_keys : PortToKeys
unfolding add_keys
port_to_keys = add_keys runtime_feature_keys []

-- `portToKeys.get(portName) ?? [featureKey]`
unfoldable pub slot_keys_of : RuntimeFeatureKey → String → List RuntimeFeatureKey
unfolding port_to_keys
slot_keys_of key port = or_else (lookup port_to_keys port) (key ∷ [])

abbrev pub is_shared : List RuntimeFeatureKey → Bool
is_shared slot_keys = ltb 1 (length slot_keys)

-- A key of the slot that is not declared unavailable.
abbrev pub is_live : Composition → List RuntimeFeatureKey → Bool
is_live composition slot_keys =
    any (λ k. not (is_unavailable (composition.instance_capabilities k))) slot_keys

unfoldable pub shared_slot_message :
    List RuntimeFeatureKey → Bool → Composition → String → String → String
unfolding concat join
shared_slot_message slot_keys slot_is_shared composition port base_message =
    if not slot_is_shared
    then base_message
    else join
        (base_message
          ∷ concat (
              "Port \""
              ∷ port
              ∷ "\" is shared between ["
              ∷ join (map key_name slot_keys) ", "
              ∷ "]; their declarations ["
              ∷ join
                  (map
                    (λ k. concat (
                      key_name k
                      ∷ "="
                      ∷ availability_name (composition.instance_capabilities k)
                      ∷ []))
                    slot_keys)
                  ", "
              ∷ "] together require a different adapter marker than the one wired."
              ∷ [])
          ∷ "If you are an adopter with a real wallet but no Verifiable Presentation stack, this is the SC-4 transitional-clearance trigger — see thoughts/specs/2026-05-22-upstream-extension-queue.md SC-4."
          ∷ [])
        " "
