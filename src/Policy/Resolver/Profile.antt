-- ===== src/Policy/Resolver/Profile.antt =====
-- What a resolved profile guarantees.
use mathlib.Core.Path.{subst}
use formspec_web.Common.{
  String, ◌≡◌, refl, ap, sym, ◌∙◌, ◌↔◌, inl, inr, Bool, true, false, ◌&&◌, List, [], ◌∷◌, map,
  Option, some, ok, err, done, All, filter, arith, >>=-eq-ok, >>-eq-ok, if◌then◌else◌, Bool-cases,
}
use formspec_web.Js.{Value, undefined, prop}
use formspec_web.Policy.FeatureKeys.{
  RuntimeFeatureKey, key_eq, key_eq_iff, has_key, runtime_feature_keys,
  has_key-runtime_feature_keys, multi_party, safe_address,
}
use formspec_web.Policy.Shapes.{
  CapabilityAvailability, demo_stub, unavailable, ResolvedRuntimeProfile, SafeAddressRuntimeConfig,
  production, available,
}
use formspec_web.Policy.Errors.{Checked}
use formspec_web.Policy.Decide.{Decision, enabled, disabled, decide, can_satisfy}
use formspec_web.Policy.Decide.Laws.{wanted, demanded, contradictory, decide-enabled_iff}
use formspec_web.Policy.MultiParty.WellFormed.{IsMultiPartyConfig}
use formspec_web.Policy.MultiParty.Resolved.{resolve_multi_party_policy-IsMultiPartyConfig}
use formspec_web.Policy.SafeAddress.Resolved.{
  IsSafeConfig, resolve_safe_address_policy-IsSafeConfig,
}
use formspec_web.Policy.Validate.{ResolveInput, validate_input}
use formspec_web.Policy.Resolver.{
  Tally, resolve_keys, decide_key, capability_at, org_mode_at, form_mode_at, limit_at, limit_of,
  resolve_runtime_features, resolve_multi_party_if, resolve_safe_address_if,
}
use formspec_web.Policy.Resolver.Decisions.{
  is_on, is_decided, on_keys, off_keys, IsTally, resolve_keys-IsTally,
}

has_key-filter :
    (f : RuntimeFeatureKey → Bool) (keys : List RuntimeFeatureKey) (k : RuntimeFeatureKey)
    → has_key (filter f keys) k ≡ (has_key keys k && f k)
has_key-filter f [] k = refl
has_key-filter f (key ∷ keys) k = elim (Bool-cases (key_eq key k)) [
  | inl same ↦ ground (arith, has_key-filter f keys k, ap f ((key_eq_iff key k).0 same))
  | inr other ↦ ground (arith, has_key-filter f keys k)
]

is_on_iff : (d : Checked Decision) → (is_on d ≡ true) ↔ (d ≡ ok enabled)
is_on_iff (ok enabled) = ((λ h. refl), (λ h. refl))
is_on_iff (ok (disabled reason)) = ((λ h. cc), (λ h. cc))
is_on_iff (err e) = ((λ h. cc), (λ h. cc))

multi_party_of :
    (b : Bool) (limit r : Value)
    → resolve_multi_party_if b limit ≡ ok r
    → b ≡ true
    → IsMultiPartyConfig r
unfolding resolve_multi_party_if
multi_party_of true limit r h e = (resolve_multi_party_policy-IsMultiPartyConfig limit r h).1
multi_party_of false limit r h e = cc

safe_address_of :
    (b : Bool) (o f : Value) (c : Option SafeAddressRuntimeConfig)
    → resolve_safe_address_if b o f ≡ ok c
    → b ≡ true
    → (config : SafeAddressRuntimeConfig) × (c ≡ some config) × IsSafeConfig o f config
unfolding resolve_safe_address_if
safe_address_of true o f c h e =
    let (config, e₁, e₂) = >>=-eq-ok _ _ h in
    (config, cc, resolve_safe_address_policy-IsSafeConfig o f config e₁)
safe_address_of false o f c h e = cc

All-has_key :
    (P : RuntimeFeatureKey → Type 0) (keys : List RuntimeFeatureKey) (k : RuntimeFeatureKey)
    → All P keys
    → has_key keys k ≡ true
    → P k
All-has_key P [] k h e = cc
All-has_key P (key ∷ keys) k (one, h) e = elim (Bool-cases (key_eq key k)) [
  | inl same ↦ subst P ((key_eq_iff key k).0 same) one
  | inr other ↦ All-has_key P keys k h (ground arith)
]

-- A feature that is demanded and decided without an error is on.
on_of_demanded :
    (input : ResolveInput) (k : RuntimeFeatureKey)
    → is_decided (decide_key input k) ≡ true
    → (contradictory (org_mode_at input k) (form_mode_at input k) ≡ false)
      × (demanded (org_mode_at input k) (form_mode_at input k) ≡ true
          → is_on (decide_key input k) ≡ true)
unfolding decide_key decide
on_of_demanded input k h = (ground arith, λ d. ground arith)

satisfied : (c : CapabilityAvailability) → can_satisfy production c ≡ true → c ≡ available
unfolding can_satisfy
satisfied available h = refl
satisfied demo_stub h = cc
satisfied unavailable h = cc

module _ (origin_of : String → Option String) (input : ResolveInput) (p : ResolvedRuntimeProfile)
    (h : resolve_runtime_features origin_of input ≡ ok p) where
  -- The steps that led to the profile.
  record Steps : Type 0 where
    tally : Tally
    kept : resolve_keys input runtime_feature_keys ≡ ok tally
    valid : validate_input origin_of input ≡ done
    mode : p.mode ≡ input.mode
    on : p.enabled ≡ tally.on
    off : p.disabled ≡ tally.off
    limits : p.limits ≡ tally.limits
    parties :
        resolve_multi_party_if (has_key tally.on multi_party) (limit_of tally.limits multi_party)
        ≡ ok p.multi_party
    addresses :
        resolve_safe_address_if
          (has_key tally.on safe_address)
          (prop input.org_policy.limits "safeAddress")
          (prop input.form_policy.limits "safeAddress")
        ≡ ok p.safe_address

  steps : Steps
  unfolding resolve_runtime_features
  steps =
      let (valid, h₁) = >>-eq-ok (validate_input origin_of input) _ h in
      let (tally, kept, h₂) = >>=-eq-ok (resolve_keys input runtime_feature_keys) _ h₁ in
      let (parties, e₁, h₃) = >>=-eq-ok (resolve_multi_party_if _ _) _ h₂ in
      let (addresses, e₂, h₄) = >>=-eq-ok (resolve_safe_address_if _ _ _) _ h₃ in
      record {
        tally = tally;
        kept = kept;
        valid = valid;
        mode = cc h₄;
        on = cc h₄;
        off = cc h₄;
        limits = cc h₄;
        parties = e₁ ∙ cc h₄;
        addresses = e₂ ∙ cc h₄;
      }

  -- The input of a resolved profile has passed the validation.
  pub validated : validate_input origin_of input ≡ done
  validated = steps.valid

  tally_of_steps : IsTally input runtime_feature_keys steps.tally
  tally_of_steps = resolve_keys-IsTally input runtime_feature_keys steps.tally steps.kept

  has_key-enabled : (k : RuntimeFeatureKey) → has_key p.enabled k ≡ is_on (decide_key input k)
  has_key-enabled k =
      rw (steps.on, tally_of_steps.on)
        (has_key-filter (λ x. is_on (decide_key input x)) runtime_feature_keys k
          ∙ ap (λ b. b && is_on (decide_key input k)) (has_key-runtime_feature_keys k))

  -- In a resolved profile a feature is enabled exactly if the org's and the form's modes do not
  -- contradict one another, one of them asks for it and none forbids it, and the instance can do it
  -- in the input's mode.
  pub resolve-enabled_iff :
      (k : RuntimeFeatureKey)
      → (has_key p.enabled k ≡ true) ↔ (
          (contradictory (org_mode_at input k) (form_mode_at input k) ≡ false)
          × (wanted (org_mode_at input k) (form_mode_at input k) ≡ true)
          × (can_satisfy input.mode (capability_at input k) ≡ true))
  unfolding decide_key
  resolve-enabled_iff k =
      let decision =
        decide-enabled_iff input.mode k (capability_at input k) (org_mode_at input k)
          (form_mode_at input k) in
      (
        λ e. decision.0 ((is_on_iff (decide_key input k)).0 (sym (has_key-enabled k) ∙ e)),
        λ e. has_key-enabled k ∙ (is_on_iff (decide_key input k)).1 (decision.1 e),
      )

  -- In a resolved profile the enabled keys are the keys of the taxonomy whose decision is on, and the
  -- disabled ones those whose decision is off, both in the taxonomy's order; each disabled key
  -- comes with the reason of its decision.
  pub resolve_partition :
      (p.enabled ≡ on_keys input runtime_feature_keys)
      × (map (λ d. d.0) p.disabled ≡ off_keys input runtime_feature_keys)
      × All (λ d. decide_key input d.0 ≡ ok (disabled d.1)) p.disabled
  resolve_partition = (
    rw (steps.on) (tally_of_steps.on),
    rw (steps.off) (tally_of_steps.off),
    rw (steps.off) (tally_of_steps.reasons),
  )

  -- In a resolved profile no feature is required by one document and forbidden by the other, and
  -- every feature that a document requires is enabled.
  pub resolve_demands_met :
      (k : RuntimeFeatureKey)
      → (contradictory (org_mode_at input k) (form_mode_at input k) ≡ false)
        × (demanded (org_mode_at input k) (form_mode_at input k) ≡ true
            → has_key p.enabled k ≡ true)
  resolve_demands_met k =
      let (sound, on) = on_of_demanded input k (
        All-has_key (λ x. is_decided (decide_key input x) ≡ true) runtime_feature_keys k
          tally_of_steps.decided (has_key-runtime_feature_keys k)) in
      (sound, λ d. has_key-enabled k ∙ on d)

  -- A profile resolved in production enables only features that the instance declares available.
  pub resolve_production_available :
      (k : RuntimeFeatureKey)
      → input.mode ≡ production
      → has_key p.enabled k ≡ true
      → capability_at input k ≡ available
  resolve_production_available k m e =
      satisfied (capability_at input k) (
        subst (λ x. can_satisfy x (capability_at input k) ≡ true) m ((resolve-enabled_iff k).0 e).2)

  -- In a resolved profile the limit of an enabled feature is the merge of the org's and the form's
  -- limits of it, and a disabled feature has none.
  pub resolve_limits :
      (k : RuntimeFeatureKey)
      → limit_of p.limits k ≡ (if has_key p.enabled k then limit_at input k else undefined)
  resolve_limits k = rw (steps.limits, steps.on) (tally_of_steps.limits k)

  -- A profile that enables the multi-party feature carries a well-formed multi-party configuration,
  -- and one that enables safe addresses carries a safe configuration of the two documents' limits.
  pub resolve_configs :
      (has_key p.enabled multi_party ≡ true → IsMultiPartyConfig p.multi_party)
      × (has_key p.enabled safe_address ≡ true
          → (config : SafeAddressRuntimeConfig) × (p.safe_address ≡ some config)
            × IsSafeConfig
                (prop input.org_policy.limits "safeAddress")
                (prop input.form_policy.limits "safeAddress")
                config)
  resolve_configs = (
    λ e.
        multi_party_of _ _ p.multi_party steps.parties
          (ap (λ ks. has_key ks multi_party) (sym steps.on) ∙ e),
    λ e.
        safe_address_of _ _ _ p.safe_address steps.addresses
          (ap (λ ks. has_key ks safe_address) (sym steps.on) ∙ e),
  )
