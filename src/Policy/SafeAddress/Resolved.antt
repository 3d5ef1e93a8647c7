-- ===== src/Policy/SafeAddress/Resolved.antt =====
-- What the resolver guarantees of a safe-address configuration.
use mathlib.Core.Path.{ap₂}
use formspec_web.Common.{
  ◌≤◌, String, ◌≡◌, refl, false, List, [], ◌∷◌, map, Option, none, some, ok, All, is_empty, eq_iff,
  arith, >>=-eq-ok,
}
use formspec_web.Js.{Value, prop}
use formspec_web.Policy.Shapes.{SafeAddressFieldPolicy, SafeAddressRuntimeConfig}
use formspec_web.Policy.Checks.{non_empty_string_array_from}
use formspec_web.Policy.SafeAddress.{
  resolve_fields, field_policies, restrict, org_audiences,
  resolve_safe_address_authorized_audiences, resolve_safe_address_policy, safe_address_tier_rank,
  deployment_tier,
}
use formspec_web.Policy.SafeAddress.Audiences.{
  IsWithin, IsProtected, field_IsProtected, IsWithin-filter, IsWithin-cons,
}

abbrev pub paths : List SafeAddressFieldPolicy → List String
paths fs = map (λ f. f.path) fs

resolve_fields-IsProtected :
    (fs gs : List SafeAddressFieldPolicy) (defaults : List String)
    → resolve_fields fs defaults ≡ ok gs
    → All (IsProtected defaults) gs × (paths gs ≡ paths fs)
unfolding resolve_fields
resolve_fields-IsProtected [] [] defaults h = (tt, refl)
resolve_fields-IsProtected [] (g ∷ gs) defaults h = cc
resolve_fields-IsProtected (f ∷ fs) gs defaults h =
    let (one, e, h₁) = >>=-eq-ok _ _ h in
    let (rest, e', h₂) = >>=-eq-ok _ _ h₁ in
    let (safe, path) = field_IsProtected f one defaults e in
    let (all_safe, same_paths) = resolve_fields-IsProtected fs rest defaults e' in
    let same : one ∷ rest ≡ gs = cc in rw (← same) ((safe, all_safe), ap₂ ◌∷◌ path same_paths)

IsWithin-refl : (xs : List String) → IsWithin xs xs
IsWithin-refl [] = tt
IsWithin-refl (x ∷ xs) = ground (arith, eq_iff x x, IsWithin-cons x xs xs (IsWithin-refl xs))

restrict-IsWithin : (xs : List String) (o : Option (List String)) → IsWithin (restrict xs o) xs
unfolding restrict
restrict-IsWithin xs none = IsWithin-refl xs
restrict-IsWithin xs (some ys) = IsWithin-filter xs ys

some_of_paths :
    (fs gs : List SafeAddressFieldPolicy)
    → paths fs ≡ paths gs
    → is_empty gs ≡ false
    → is_empty fs ≡ false
some_of_paths (f ∷ fs) gs e h = refl
some_of_paths [] (g ∷ gs) e h = cc
some_of_paths [] [] e h = cc

-- A safe-address configuration that no field leaks from: there is a field, each is protected by the
-- authorized audiences, these are audiences of the org, and the receipt posture is within what the
-- deployment offers.
pub record IsSafeConfig (org_limit form_limit : Value) (c : SafeAddressRuntimeConfig) : Type 0 where
  pub some_field : is_empty c.fields ≡ false
  pub declared : paths c.fields ≡ paths (field_policies (prop form_limit "fields"))
  pub protected : All (IsProtected c.authorized_audiences) c.fields
  pub someone : is_empty c.authorized_audiences ≡ false
  pub from_org :
      IsWithin c.authorized_audiences (org_audiences (prop org_limit "authorizedAudiences"))
  pub some_class : is_empty c.enabled_classes ≡ false
  pub some_jurisdiction : is_empty c.acp_jurisdictions_accepted ≡ false
  pub posture :
      safe_address_tier_rank c.receipt_posture_tier
      ≤ safe_address_tier_rank (deployment_tier org_limit)

policy_parts :
    (org_limit form_limit : Value) (c : SafeAddressRuntimeConfig)
    → resolve_safe_address_policy org_limit form_limit ≡ ok c
    → (resolve_fields (field_policies (prop form_limit "fields")) c.authorized_audiences
        ≡ ok c.fields)
      × (is_empty (field_policies (prop form_limit "fields")) ≡ false)
      × (is_empty c.enabled_classes ≡ false)
      × (is_empty c.acp_jurisdictions_accepted ≡ false)
      × (is_empty c.authorized_audiences ≡ false)
      × (safe_address_tier_rank c.receipt_posture_tier
          ≤ safe_address_tier_rank (deployment_tier org_limit))
      × (c.authorized_audiences
          ≡ resolve_safe_address_authorized_audiences
              (prop org_limit "authorizedAudiences")
              (prop form_limit "authorizedAudiences"))
unfolding resolve_safe_address_policy
policy_parts org_limit form_limit c h = ground arith

-- If the resolver returns a safe-address configuration, then it has a field, and its fields are those
-- that the form declares, in that order; the plaintext of each goes to at least one audience, to
-- authorized audiences only, and only to audiences that may see the field where the field says who
-- may. The authorized audiences are audiences of the org (by default, issuer verification), at least
-- one; a class and a jurisdiction are named; the receipt posture does not exceed the deployment's.
pub resolve_safe_address_policy-IsSafeConfig :
    (org_limit form_limit : Value) (c : SafeAddressRuntimeConfig)
    → resolve_safe_address_policy org_limit form_limit ≡ ok c
    → IsSafeConfig org_limit form_limit c
resolve_safe_address_policy-IsSafeConfig org_limit form_limit c h =
    let (fields, some_field, some_class, some_place, someone, posture, same) =
      policy_parts org_limit form_limit c h in
    let (protected, declared) = resolve_fields-IsProtected _ _ _ fields in
    record {
      some_field = some_of_paths c.fields _ declared some_field;
      declared = declared;
      protected = protected;
      someone = someone;
      from_org = rw same (
          unfold resolve_safe_address_authorized_audiences in
          restrict-IsWithin (org_audiences (prop org_limit "authorizedAudiences"))
            (non_empty_string_array_from (prop form_limit "authorizedAudiences")));
      some_class = some_class;
      some_jurisdiction = some_place;
      posture = posture;
    }
