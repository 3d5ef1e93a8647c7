-- ===== src/Tests/Extraction.antt =====
-- Theorems on what is extracted from a form's definition.
use formspec_web.Common.{[], ◌∷◌, String, ◌≡◌, refl, ◌↔◌, some, All, done, IsDistinct, map}
use formspec_web.Js.{undefined, Value, str, arr, obj, nil, cons, end, field, get, prop, elements}
use formspec_web.Policy.SafeAddressLimits.{validate_safe_address_field}
use formspec_web.Policy.ExtractFields.{
  ItemHead, form_item, FormItems, no_items, more_items, is_group, safe_address_fields_from_items,
}
use formspec_web.Policy.ExtractFields.Accepted.{safe_address_fields_from_items-valid}
use formspec_web.Policy.Errors.{form}
use formspec_web.Policy.MultiParty.{validate_multi_party_limits}
use formspec_web.Policy.MultiParty.WellFormed.{role_ids}
use formspec_web.Policy.ExtractParties.{
  parse_multi_party_block, parse_multi_party_role, parse_multi_party_cardinality,
  parse_assurance_floor, parse_multi_party_deadline_policy, string_array,
}
use formspec_web.Policy.ExtractParties.Accepted.{IsSatisfiable, parse_multi_party_block-valid_iff}

abbrev role : String → Value
role id = obj (field "roleId" (str id) (field "role" (str "coEqual") end))

abbrev declared : Value
declared = obj (
    field "tier" (str "coEqual")
      (field "parties" (arr (cons (role "buyer") (cons (role "seller") nil))) end))

extracted : (policy : Value) × (parse_multi_party_block declared ≡ some policy)
unfolding parse_multi_party_block parse_multi_party_role parse_multi_party_cardinality
    parse_assurance_floor parse_multi_party_deadline_policy string_array get
extracted = (_, refl)

parse_multi_party_block-valid_iff_example :
    (validate_multi_party_limits extracted.0 form ≡ done) ↔ (
      IsDistinct (role_ids (elements (prop extracted.0 "parties")))
      × All IsSatisfiable (elements (prop extracted.0 "parties")))
parse_multi_party_block-valid_iff_example =
    parse_multi_party_block-valid_iff declared extracted.0 form extracted.1

abbrev head_of : String → String → String → Value → ItemHead
head_of key item_type data_type access_control = record {
  key = key;
  item_type = item_type;
  data_type = data_type;
  label = str key;
  visible_to = undefined;
  access_control = access_control;
}

-- A group with a safe address in it, and an attachment.
abbrev home : FormItems
home =
    more_items
      (form_item (head_of "person" "group" "" undefined) (
        more_items
          (form_item
            (head_of "home" "field" "string" (obj (field "class" (str "safe-address") end)))
            no_items)
          no_items))
      (more_items (form_item (head_of "proof" "field" "attachment" undefined) no_items) no_items)

home_fields :
    map (λ f. prop f "path") (safe_address_fields_from_items home []) ≡ str "/person/home" ∷ []
unfolding is_group get
home_fields = refl

safe_address_fields_from_items-valid_example :
    All (λ f. validate_safe_address_field form f ≡ done) (safe_address_fields_from_items home [])
unfolding is_group
safe_address_fields_from_items-valid_example = safe_address_fields_from_items-valid form home []
