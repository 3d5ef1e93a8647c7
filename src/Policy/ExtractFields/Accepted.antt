-- ===== src/Policy/ExtractFields/Accepted.antt =====
-- What the walkers of the items find.
use formspec_web.Common.{
  String, ◌≡◌, refl, inl, inr, true, List, [], ◌∷◌, ◌++◌, All, done, arith, Bool-cases,
}
use formspec_web.Js.{Value, str, prop, get, is_undefined, starts_with_slash}
use formspec_web.Policy.Errors.{RuntimePolicyDocumentKind}
use formspec_web.Policy.Checks.Laws.{validate_optional_string_array_iff}
use formspec_web.Policy.SafeAddressLimits.{
  is_access_class_value, is_json_pointer, validate_safe_address_field,
}
use formspec_web.Policy.ExtractParties.{string_array}
use formspec_web.Policy.ExtractParties.Accepted.{string_array-IsOptionalStringArray}
use formspec_web.Policy.ExtractFields.{
  ItemHead, FormItem, form_item, FormItems, no_items, more_items, is_attachment, is_group, slashed,
  safe_field, field_of_item, safe_address_fields_from_items,
}

-- An attachment field stands among the items, or in a group that stands among them.
pub data HasAttachment : FormItems → Type 0 where
  here :
      (head : ItemHead) (children rest : FormItems)
      → is_attachment head ≡ true
      → HasAttachment (more_items (form_item head children) rest)
  inside :
      (head : ItemHead) (children rest : FormItems)
      → is_group head ≡ true
      → HasAttachment children
      → HasAttachment (more_items (form_item head children) rest)
  later :
      (item : FormItem) (rest : FormItems)
      → HasAttachment rest
      → HasAttachment (more_items item rest)

All-both : {A : Type 0} (P : A → Type 0) (xs ys : List A) → All P xs → All P ys → All P (xs ++ ys)
All-both P [] ys h k = k
All-both P (x ∷ xs) ys (p, h) k = (p, All-both P xs ys h k)

slashed-pointer :
    (ancestors : List String) (key : String)
    → starts_with_slash (slashed (ancestors ++ key ∷ [])) ≡ true
slashed-pointer [] key = refl
slashed-pointer (a ∷ ancestors) key = refl

-- A field with a pointer for its path and a safe class passes the resolver's validation.
safe_field-valid :
    (layer : RuntimePolicyDocumentKind)
    (path label access_class visible_to plaintext effective : Value)
    → is_json_pointer path ≡ true
    → is_access_class_value access_class ≡ true
    → validate_safe_address_field layer
        (safe_field path label access_class visible_to plaintext effective)
      ≡ done
unfolding validate_safe_address_field get
safe_field-valid layer path label access_class visible_to plaintext effective pointer safe =
    ground (
      arith,
      pointer,
      safe,
      (validate_optional_string_array_iff layer "limits.safeAddress.fields[].visibleTo"
            (string_array visible_to)).1
          (string_array-IsOptionalStringArray visible_to),
      (validate_optional_string_array_iff layer "limits.safeAddress.fields[].plaintextAudiences"
            (string_array plaintext)).1
          (string_array-IsOptionalStringArray plaintext),
      (validate_optional_string_array_iff layer "limits.safeAddress.fields[].effectiveAudiences"
            (string_array effective)).1
          (string_array-IsOptionalStringArray effective),
    )

field_of_item-valid :
    (layer : RuntimePolicyDocumentKind) (ancestors : List String) (head : ItemHead)
    → All (λ f. validate_safe_address_field layer f ≡ done) (field_of_item ancestors head)
field_of_item-valid layer ancestors head =
    elim (Bool-cases (is_access_class_value (prop head.access_control "class"))) [
      | inr other ↦ rw (field_of_item, other) tt
      | inl safe ↦ elim (Bool-cases (is_undefined (prop head.access_control "class"))) [
        | inl missing ↦ rw (field_of_item, safe, missing) tt
        | inr there ↦
            rw (field_of_item, safe, there)
              (
                safe_field-valid layer (str (slashed (ancestors ++ head.key ∷ []))) head.label
                    (prop head.access_control "class") head.visible_to
                    (prop head.access_control "plaintextAudiences")
                    (prop head.access_control "effectiveAudiences")
                    (slashed-pointer ancestors head.key) safe,
                tt,
              )
      ]
    ]

-- Every safe-address field that is found among a form's items passes the resolver's validation of
-- fields, in either layer.
pub safe_address_fields_from_items-valid :
    (layer : RuntimePolicyDocumentKind) (xs : FormItems) (ancestors : List String)
    → All
        (λ f. validate_safe_address_field layer f ≡ done)
        (safe_address_fields_from_items xs ancestors)
safe_address_fields_from_items-valid layer no_items ancestors = tt
safe_address_fields_from_items-valid layer (more_items (form_item head children) rest) ancestors =
    let below = safe_address_fields_from_items-valid layer children (ancestors ++ head.key ∷ []) in
    let after = safe_address_fields_from_items-valid layer rest ancestors in
    All-both _ (field_of_item ancestors head) _ (field_of_item-valid layer ancestors head)
      (elim (Bool-cases (is_group head)) [
        | inl group ↦ rw group (All-both _ _ _ below after)
        | inr other ↦ rw other after
      ])
