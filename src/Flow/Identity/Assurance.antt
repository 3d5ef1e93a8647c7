-- ===== src/Flow/Identity/Assurance.antt =====
-- The assurance floor of a form, and who gets in.
use formspec_web.Common.{
  Bool-cases, ap, ◌∙◌, >>=-eq-ok, >>-eq-ok, All-filter, String, ◌≡◌, refl, ◌↔◌, inl, inr, true,
  false, ◌&&◌, Option, none, some, List, ok, done, All, is_some, arith,
}
use formspec_web.Js.{undefined_of, Value, obj, undefined, is_undefined, is_object, prop}
use formspec_web.Policy.Shapes.{production}
use formspec_web.Flow.Identity.{
  AssuranceLevel, IdentityClaim, IdpOption, oidc_required, is_oidc,
  sign_in_options_for_identity_policy, optional_object, level_of, optional_assurance_level,
  optional_string, higher, floor_of_block, form_assurance_floor_for_definition,
  identity_claim_meets_assurance, assert_identity_policy_satisfied,
}

-- What the definition says under `metadata.assurance`, one of the two levels.
abbrev pub declared_level : Value → String → Option AssuranceLevel
declared_level definition key = level_of (prop (prop (prop definition "metadata") "assurance") key)

meets-higher :
    (claim : Option IdentityClaim) (ial aal : Option AssuranceLevel)
    → identity_claim_meets_assurance claim (higher ial aal)
      ≡ (identity_claim_meets_assurance claim ial && identity_claim_meets_assurance claim aal)
unfolding identity_claim_meets_assurance higher
meets-higher none ial aal = ground arith
meets-higher (some c) none aal = ground arith
meets-higher (some c) (some ial) none = ground arith
meets-higher (some c) (some ial) (some aal) = ground arith

no_property : (v : Value) (key : String) → is_object v ≡ false → prop v key ≡ undefined
no_property undefined key h = refl
no_property (obj fs) key h = cc
no_property _ key h = refl

optional_object_lem :
    (source : Value) (key : String) (v : Value)
    → optional_object source key ≡ ok v
    → v ≡ prop source key
unfolding optional_object
optional_object_lem source key v h =
    ground (arith, undefined_of (prop source key), no_property source key)

optional_assurance_level_lem :
    (source : Value) (key : String) (l : Option AssuranceLevel)
    → optional_assurance_level source key ≡ ok l
    → l ≡ level_of (prop source key)
unfolding optional_assurance_level
optional_assurance_level_lem source key l h = ground (arith, undefined_of (prop source key))

floor_of_block_lem :
    (block : Value) (floor : Option AssuranceLevel)
    → floor_of_block block ≡ ok floor
    → floor ≡ higher (level_of (prop block "ial")) (level_of (prop block "aal"))
unfolding floor_of_block higher
floor_of_block_lem block floor h = elim (Bool-cases (is_undefined block)) [
  | inl missing ↦ ground (arith, undefined_of block)
  | inr there ↦
      let (ial, read_ial, h₁) =
        >>=-eq-ok (optional_assurance_level block "ial") _ (rw there at h) in
      let (aal, read_aal, h₂) = >>=-eq-ok (optional_assurance_level block "aal") _ h₁ in
      let (checked, h₃) = >>-eq-ok (optional_string block "jurisdiction") _ h₂ in
      rw
        (
          ← optional_assurance_level_lem block "ial" ial read_ial,
          ← optional_assurance_level_lem block "aal" aal read_aal,
        )
        (cc)
]

-- If the floor of a definition is found, then a claim meets it exactly if it meets both the identity
-- and the authenticator level that the definition declares under `metadata.assurance`.
pub meets-form_assurance_floor :
    (definition : Value) (claim : Option IdentityClaim) (floor : Option AssuranceLevel)
    → form_assurance_floor_for_definition definition ≡ ok floor
    → identity_claim_meets_assurance claim floor ≡ (
        identity_claim_meets_assurance claim (declared_level definition "ial")
        && identity_claim_meets_assurance claim (declared_level definition "aal"))
unfolding form_assurance_floor_for_definition
meets-form_assurance_floor definition claim floor h =
    let (metadata, read, h₁) = >>=-eq-ok (optional_object definition "metadata") _ h in
    let (assurance, read₁, h₂) = >>=-eq-ok (optional_object metadata "assurance") _ h₁ in
    let same : assurance ≡ prop (prop definition "metadata") "assurance" =
      optional_object_lem metadata "assurance" assurance read₁
      ∙ ap (λ v. prop v "assurance") (optional_object_lem definition "metadata" metadata read) in
    rw (← same) (rw (floor_of_block_lem assurance floor h₂) (meets-higher claim _ _))

-- A production deployment that requires OIDC offers only OIDC options, and loads a form exactly if
-- there is a claim.
sign_in_options-oidc_required :
    (options : List IdpOption) (claim : Option IdentityClaim)
    → All
        (λ o. is_oidc o ≡ true)
        (sign_in_options_for_identity_policy options oidc_required production)
      × ((assert_identity_policy_satisfied claim oidc_required production ≡ done)
          ↔ (is_some claim ≡ true))
unfolding sign_in_options_for_identity_policy assert_identity_policy_satisfied
sign_in_options-oidc_required options claim = (All-filter is_oidc options, ground arith)
