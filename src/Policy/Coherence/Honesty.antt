-- ===== src/Policy/Coherence/Honesty.antt =====
-- The compositions that are coherent, and what a resolved profile may rely on in them.
use formspec_web.Common.{
  String, ◌≡◌, refl, ◌↔◌, Bool, true, false, not, ◌&&◌, ◌||◌, Option, none, some, Option-cases,
  List, [], ◌∷◌, ok, done, each, inl, inr, >>-eq-ok, is_empty, all, arith, if◌then◌else◌,
}
use formspec_web.Policy.FeatureKeys.{
  RuntimeFeatureKey, runtime_feature_keys, has_key, has_key-runtime_feature_keys, key_eq,
  key_eq_iff, multi_party,
}
use formspec_web.Policy.Shapes.{Mode, CapabilityAvailability, available, demo_stub, unavailable}
use formspec_web.Policy.Sentinel.{Adapter, is_unavailable_adapter, is_demo_stub_adapter}
use formspec_web.Policy.PortMap.{feature_port_names}
use formspec_web.Policy.Composition.{
  Composition, is_unavailable, is_production, slot_keys_of, is_shared, is_live,
}
use formspec_web.Policy.Coherence.{
  check_adapter, check_port, check_key, assert_composition_coherence, freeze_composition,
}

-- The markers that an adapter carries behind a declaration: none behind `available`, only that of a
-- demo stub behind `demo-stub`, in a demo, and only that of absence behind `unavailable`.
abbrev pub is_honest : Mode → CapabilityAvailability → Adapter → Bool
is_honest mode available adapter =
    not (is_unavailable_adapter adapter) && not (is_demo_stub_adapter adapter)
is_honest mode demo_stub adapter =
    not (is_production mode) && is_demo_stub_adapter adapter && not (is_unavailable_adapter adapter)
is_honest mode unavailable adapter =
    is_unavailable_adapter adapter && not (is_demo_stub_adapter adapter)

check_adapter_iff :
    (c : Composition) (key : RuntimeFeatureKey) (port : String) (adapter : Adapter)
    → (check_adapter c key port adapter ≡ done)
      ↔ (is_honest c.mode (c.instance_capabilities key) adapter ≡ true)
unfolding check_adapter
check_adapter_iff c key port adapter = ground arith

-- A key that is declared unavailable, of a slot that another key keeps live.
abbrev pub opts_out : Composition → RuntimeFeatureKey → String → Bool
opts_out c key port =
    is_shared (slot_keys_of key port)
    && is_unavailable (c.instance_capabilities key)
    && is_live c (slot_keys_of key port)

-- A slot that is wired, by an adapter with the markers of the declaration unless the key opts out.
abbrev pub is_backed : Composition → RuntimeFeatureKey → String → Option Adapter → Bool
is_backed c key port none = false
is_backed c key port (some adapter) =
    opts_out c key port || is_honest c.mode (c.instance_capabilities key) adapter

check_port_iff :
    (c : Composition) (key : RuntimeFeatureKey) (port : String)
    → (check_port c key port ≡ done) ↔ (is_backed c key port (c.port port) ≡ true)
unfolding check_port
check_port_iff c key port = elim (Option-cases (c.port port)) [
  | inl missing ↦ ground (arith, missing)
  | inr (adapter, wired) ↦ ground (arith, wired, check_adapter_iff c key port adapter)
]

check_ports_iff :
    (c : Composition) (key : RuntimeFeatureKey) (ports : List String)
    → (each (check_port c key) ports ≡ done)
      ↔ (all (λ p. is_backed c key p (c.port p)) ports ≡ true)
unfolding each
check_ports_iff c key [] = ground arith
check_ports_iff c key (port ∷ ports) =
    ground (arith, check_port_iff c key port, check_ports_iff c key ports)

-- A key is coherent if each of its ports is backed; one without ports, if it is declared unavailable;
-- and multiParty also whenever it is declared unavailable.
abbrev pub is_coherent : Composition → RuntimeFeatureKey → Bool
is_coherent c key =
    (key_eq key multi_party && is_unavailable (c.instance_capabilities key))
    || (if is_empty (feature_port_names key)
        then is_unavailable (c.instance_capabilities key)
        else all (λ p. is_backed c key p (c.port p)) (feature_port_names key))

check_key_iff :
    (c : Composition) (key : RuntimeFeatureKey)
    → (check_key c key ≡ done) ↔ (is_coherent c key ≡ true)
unfolding check_key
check_key_iff c key = ground (arith, check_ports_iff c key (feature_port_names key))

check_keys_iff :
    (c : Composition) (keys : List RuntimeFeatureKey)
    → (each (check_key c) keys ≡ done) ↔ (all (is_coherent c) keys ≡ true)
unfolding each
check_keys_iff c [] = ground arith
check_keys_iff c (key ∷ keys) = ground (arith, check_key_iff c key, check_keys_iff c keys)

-- A test that every key of a list passes, and one that every key passes.
all_keys :
    (p : RuntimeFeatureKey → Bool) (keys : List RuntimeFeatureKey)
    → all p keys ≡ true
    → (k : RuntimeFeatureKey) → has_key keys k ≡ true
    → p k ≡ true
all_keys p [] h k there = cc
all_keys p (key ∷ keys) h k there = ground (arith, key_eq_iff key k, all_keys p keys _ k)

all_of_each :
    (p : RuntimeFeatureKey → Bool) (keys : List RuntimeFeatureKey)
    → ((k : RuntimeFeatureKey) → p k ≡ true)
    → all p keys ≡ true
all_of_each p [] h = refl
all_of_each p (key ∷ keys) h = ground (arith, h key, all_of_each p keys h)

-- The assertion accepts a composition exactly if each feature key is of one of three kinds: it is
-- multiParty and declared unavailable, whatever its ports are; it has no ports in the map and is declared
-- unavailable; or it has ports, all of them wired, and each is either wired by an adapter with the markers
-- of the declaration, or of a shared slot which the key, declared unavailable, leaves to another key that
-- is not declared so.
pub assert_composition_coherence_iff :
    (c : Composition)
    → (assert_composition_coherence c ≡ done)
      ↔ ((key : RuntimeFeatureKey) → is_coherent c key ≡ true)
unfolding assert_composition_coherence
assert_composition_coherence_iff c = (
  λ h key.
      all_keys (is_coherent c) runtime_feature_keys ((check_keys_iff c runtime_feature_keys).0 h)
        key (has_key-runtime_feature_keys key),
  λ h.
      (check_keys_iff c runtime_feature_keys).1
        (all_of_each (is_coherent c) runtime_feature_keys h),
)

-- A slot that is wired by an adapter with the markers of the declaration.
abbrev pub is_served : Composition → RuntimeFeatureKey → Option Adapter → Bool
is_served c key none = false
is_served c key (some adapter) = is_honest c.mode (c.instance_capabilities key) adapter

served_of_backed :
    (c : Composition) (key : RuntimeFeatureKey) (port : String) (slot : Option Adapter)
    → is_unavailable (c.instance_capabilities key) ≡ false
    → is_backed c key port slot ≡ true
    → is_served c key slot ≡ true
served_of_backed c key port slot live h = ground arith

all_served :
    (c : Composition) (key : RuntimeFeatureKey) (ports : List String)
    → is_unavailable (c.instance_capabilities key) ≡ false
    → all (λ p. is_backed c key p (c.port p)) ports ≡ true
    → all (λ p. is_served c key (c.port p)) ports ≡ true
all_served c key [] live h = refl
all_served c key (port ∷ ports) live h =
    ground (arith, served_of_backed c key port (c.port port), all_served c key ports live)

-- In a composition that the assertion accepts, a key that is not declared unavailable has a port, and
-- every port of it is wired by an adapter with the markers of its declaration.
pub freeze_composition-served :
    (c d : Composition) (key : RuntimeFeatureKey)
    → freeze_composition c ≡ ok d
    → is_unavailable (c.instance_capabilities key) ≡ false
    → (d ≡ c)
      × (is_empty (feature_port_names key) ≡ false)
      × (all (λ p. is_served c key (c.port p)) (feature_port_names key) ≡ true)
unfolding freeze_composition
freeze_composition-served c d key h live =
    let (accepted, same) = >>-eq-ok (assert_composition_coherence c) (ok c) h in
    ground (
      arith,
      same,
      (assert_composition_coherence_iff c).0 accepted key,
      all_served c key (feature_port_names key) live,
    )
