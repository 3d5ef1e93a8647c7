-- ===== src/Policy/MultiParty/Party.antt =====
-- What the validator of one party accepts, stated without its tests.
use formspec_web.Common.{
  String, ◌≡◌, refl, ◌↔◌, inl, inr, true, false, not, ◌&&◌, List, [], ◌∷◌, done, filter, includes,
  is_empty, eq_iff, arith, Bool-cases,
}
use formspec_web.Js.{
  Value, is_array, is_non_empty_string, is_plain_object, is_str, elements, strings, prop,
}
use formspec_web.Policy.Errors.{RuntimePolicyDocumentKind}
use formspec_web.Policy.Checks.{validate_optional_string_array}
use formspec_web.Policy.Checks.Laws.{IsOptionalStringArray, validate_optional_string_array_iff}
use formspec_web.Policy.MultiParty.Cardinality.{
  IsOneOf, IsNonEmptyString, is_str_iff, is_non_empty_string_iff, IsCardinality,
  validate_multi_party_cardinality_iff,
}
use formspec_web.Policy.MultiParty.{
  validate_multi_party_cardinality, is_multi_party_role, validate_audience_intersection,
  validate_party_body,
}

-- The audiences that may see the role's data and those of its safe-address policy have one in common,
-- where both are given.
abbrev pub SharesAudience : Value → Type 0
SharesAudience p =
    is_array (prop p "safeAddressAudience") ≡ true
    → is_array (prop p "visibleTo") ≡ true
    → (s : String) × (includes (strings (elements (prop p "visibleTo"))) s ≡ true)
      × (includes (strings (elements (prop p "safeAddressAudience"))) s ≡ true)

some_shared :
    (xs ys : List String)
    → (is_empty (filter (includes ys) xs) ≡ false)
      ↔ ((s : String) × (includes ys s ≡ true) × (includes xs s ≡ true))
some_shared [] ys = ((λ h. cc), (λ h. cc h.2))
some_shared (x ∷ xs) ys = elim (Bool-cases (includes ys x)) [
  | inl seen ↦ rw seen ((λ h. (x, seen, ground (arith, eq_iff x x))), (λ h. refl))
  | inr missed ↦ rw missed (
    λ h. (let (s, p, q) = (some_shared xs ys).0 h in (s, p, ground arith)),
    λ h. (some_shared xs ys).1 (h.0, h.1, ground (arith, eq_iff x h.0, h.1, h.2)),
  )
]

pub is_role_iff :
    (v : Value)
    → (is_multi_party_role v ≡ true)
      ↔ IsOneOf ("coEqual" ∷ "asymmetricPrimary" ∷ "asymmetricSecondary" ∷ "guardianFor" ∷ []) v
is_role_iff v = ground (
  arith,
  is_str_iff v "coEqual",
  is_str_iff v "asymmetricPrimary",
  is_str_iff v "asymmetricSecondary",
  is_str_iff v "guardianFor",
)

audience_intersection_iff :
    (layer : RuntimePolicyDocumentKind) (p : Value)
    → (validate_audience_intersection layer p ≡ done) ↔ SharesAudience p
unfolding validate_audience_intersection
audience_intersection_iff layer p =
    let shared =
      some_shared (strings (elements (prop p "safeAddressAudience")))
        (strings (elements (prop p "visibleTo"))) in
    (
      λ h a b. shared.0 (ground arith),
      λ h. elim (Bool-cases (is_array (prop p "safeAddressAudience"))) [
        | inr without ↦ ground arith
        | inl a ↦ elim (Bool-cases (is_array (prop p "visibleTo"))) [
          | inr without ↦ ground arith
          | inl b ↦ ground (arith, shared.1 (h a b))
        ]
      ],
    )

-- A party of the configuration, apart from its id.
pub record IsParty (p : Value) : Type 0 where
  pub is_object : is_plain_object p ≡ true
  pub named : IsNonEmptyString (prop p "roleId")
  pub role :
      IsOneOf
        ("coEqual" ∷ "asymmetricPrimary" ∷ "asymmetricSecondary" ∷ "guardianFor" ∷ [])
        (prop p "role")
  pub visibility : IsOneOf ("shared" ∷ "scoped" ∷ []) (prop p "visibilityScope")
  pub cardinality : IsCardinality (prop p "cardinality")
  pub visible_to : IsOptionalStringArray (prop p "visibleTo")
  pub editable_by : IsOptionalStringArray (prop p "editableBy")
  pub signed_by : IsOptionalStringArray (prop p "signedBy")
  pub safe_address_audience : IsOptionalStringArray (prop p "safeAddressAudience")
  pub shares : SharesAudience p

is_visibility_iff :
    (v : Value)
    → ((not (is_str v "shared") && not (is_str v "scoped")) ≡ false)
      ↔ IsOneOf ("shared" ∷ "scoped" ∷ []) v
is_visibility_iff v = ground (arith, is_str_iff v "shared", is_str_iff v "scoped")

party_body_parts :
    (layer : RuntimePolicyDocumentKind) (p : Value)
    → (validate_party_body layer p ≡ done) ↔ (
        (is_multi_party_role (prop p "role") ≡ true)
        × ((not (is_str (prop p "visibilityScope") "shared")
              && not (is_str (prop p "visibilityScope") "scoped"))
            ≡ false)
        × (validate_multi_party_cardinality layer (prop p "cardinality") ≡ done)
        × (validate_optional_string_array layer "limits.multiParty.parties[].visibleTo"
              (prop p "visibleTo")
            ≡ done)
        × (validate_optional_string_array layer "limits.multiParty.parties[].editableBy"
              (prop p "editableBy")
            ≡ done)
        × (validate_optional_string_array layer "limits.multiParty.parties[].signedBy"
              (prop p "signedBy")
            ≡ done)
        × (validate_optional_string_array layer "limits.multiParty.parties[].safeAddressAudience"
              (prop p "safeAddressAudience")
            ≡ done)
        × (validate_audience_intersection layer p ≡ done))
unfolding validate_party_body
party_body_parts layer p = ground arith

pub IsParty-iff :
    (layer : RuntimePolicyDocumentKind) (p : Value)
    → ((is_plain_object p ≡ true)
        × (is_non_empty_string (prop p "roleId") ≡ true)
        × (validate_party_body layer p ≡ done))
      ↔ IsParty p
IsParty-iff layer p = (
  λ h.
      let parts = (party_body_parts layer p).0 h.2 in
      record {
        is_object = h.0;
        named = (is_non_empty_string_iff _).0 h.1;
        role = (is_role_iff _).0 parts.0;
        visibility = (is_visibility_iff _).0 parts.1;
        cardinality = (validate_multi_party_cardinality_iff layer _).0 parts.2;
        visible_to = (validate_optional_string_array_iff layer _ _).0 parts.3;
        editable_by = (validate_optional_string_array_iff layer _ _).0 parts.4;
        signed_by = (validate_optional_string_array_iff layer _ _).0 parts.5;
        safe_address_audience = (validate_optional_string_array_iff layer _ _).0 parts.6;
        shares = (audience_intersection_iff layer p).0 parts.7;
      },
  λ w. (
    w.is_object,
    (is_non_empty_string_iff _).1 w.named,
    (party_body_parts layer p).1 (
      (is_role_iff _).1 w.role,
      (is_visibility_iff _).1 w.visibility,
      (validate_multi_party_cardinality_iff layer _).1 w.cardinality,
      (validate_optional_string_array_iff layer _ _).1 w.visible_to,
      (validate_optional_string_array_iff layer _ _).1 w.editable_by,
      (validate_optional_string_array_iff layer _ _).1 w.signed_by,
      (validate_optional_string_array_iff layer _ _).1 w.safe_address_audience,
      (audience_intersection_iff layer p).1 w.shares,
    ),
  ),
)
