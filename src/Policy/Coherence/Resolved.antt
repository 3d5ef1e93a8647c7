-- ===== src/Policy/Coherence/Resolved.antt =====
-- The resolved profile of a coherent composition: src/policy/resolver.ts on the capabilities that
-- src/policy/composition-coherence.ts has accepted.
use formspec_web.Common.{
  String, ◌≡◌, refl, ◌∙◌, ap, true, false, Option, some, ok, is_empty, all, arith,
}
use formspec_web.Policy.FeatureKeys.{RuntimeFeatureKey, has_key}
use formspec_web.Policy.Shapes.{
  Mode, CapabilityAvailability, available, demo_stub, unavailable, capability_of,
  ResolvedRuntimeProfile,
}
use formspec_web.Policy.Decide.{can_satisfy}
use formspec_web.Policy.Validate.{ResolveInput}
use formspec_web.Policy.Resolver.{resolve_runtime_features}
use formspec_web.Policy.Resolver.Profile.{resolve-enabled_iff}
use formspec_web.Policy.PortMap.{feature_port_names}
use formspec_web.Policy.Composition.{Composition, availability_name, is_unavailable}
use formspec_web.Policy.Coherence.{freeze_composition}
use formspec_web.Policy.Coherence.Honesty.{is_served, freeze_composition-served}

capability_of-availability_name :
    (a : CapabilityAvailability) → capability_of (availability_name a) ≡ some a
unfolding capability_of
capability_of-availability_name available = refl
capability_of-availability_name demo_stub = refl
capability_of-availability_name unavailable = refl

satisfied_is_live :
    (m : Mode) (a : CapabilityAvailability) → can_satisfy m a ≡ true → is_unavailable a ≡ false
unfolding can_satisfy
satisfied_is_live m a h = ground arith

-- If a composition passes the assertion and a profile is resolved from the capabilities that it
-- declares, then every enabled feature has a port, and every port of it is wired by an adapter with
-- the markers of the declaration.
pub resolve-enabled_served :
    (origin_of : String → Option String) (c d : Composition) (input : ResolveInput)
    (profile : ResolvedRuntimeProfile)
    → freeze_composition c ≡ ok d
    → ((k : RuntimeFeatureKey)
        → input.instance_of k ≡ availability_name (c.instance_capabilities k))
    → resolve_runtime_features origin_of input ≡ ok profile
    → (key : RuntimeFeatureKey) → has_key profile.enabled key ≡ true
    → (is_empty (feature_port_names key) ≡ false)
      × (all (λ p. is_served c key (c.port p)) (feature_port_names key) ≡ true)
resolve-enabled_served origin_of c d input profile coherent declared resolved key on =
    let satisfied = ((resolve-enabled_iff origin_of input profile resolved key).0 on).2 in
    let read =
      ap capability_of (declared key)
      ∙ capability_of-availability_name (c.instance_capabilities key) in
    let live =
      satisfied_is_live input.mode (c.instance_capabilities key)
        (ground (arith, satisfied, read)) in
    let served = freeze_composition-served c d key coherent live in (served.1, served.2)
