-- ===== src/Policy/ExtractFields.antt =====
-- What the items of a form's definition ask for: attachments and safe-address fields
-- (src/policy/extract-form-policy.ts). A property that the source gives the value undefined is a
-- property with that value; missing children are no children.
pub mod Accepted
use Prim.Native.String
use formspec_web.Common.{
  String, Bool, true, false, not, ◌&&◌, ◌||◌, Option, none, some, List, [], ◌∷◌, ◌++◌, map,
  is_empty, filter, str_eq, if◌then◌else◌,
}
use formspec_web.Js.{
  Value, undefined, str, arr, obj, end, field, of_list, elements, strings, is_plain_object,
  is_array, is_str, is_true, is_false, is_undefined, is_non_empty_string, prop, or_value,
}
use formspec_web.Policy.Shapes.{FormFeaturePolicyMode, PolicyDocument}
use formspec_web.Policy.Checks.{unique}
use formspec_web.Policy.SafeAddressLimits.{
  is_access_class_value, is_safe_address_receipt_posture_tier,
}
use formspec_web.Policy.ExtractLifecycle.{FormDefinition}
use formspec_web.Policy.ExtractParties.{string_array, non_empty_string}

-- The members of an item that are read here, without its children.
pub record ItemHead : Type 0 where
  pub key : String
  pub item_type : String
  pub data_type : String
  pub label : Value
  pub visible_to : Value
  pub access_control : Value

mutual
  pub data FormItem : Type 0 where
    form_item : ItemHead → FormItems → FormItem

  pub data FormItems : Type 0 where
    no_items : FormItems
    more_items : FormItem → FormItems → FormItems

unfoldable pub is_attachment : ItemHead → Bool
is_attachment head = str_eq head.item_type "field" && str_eq head.data_type "attachment"

unfoldable pub is_group : ItemHead → Bool
is_group head = str_eq head.item_type "group"

unfoldable pub has_attachment_field : FormItems → Bool
has_attachment_field no_items = false
has_attachment_field (more_items (form_item head children) rest) =
    is_attachment head
    || (is_group head && has_attachment_field children || has_attachment_field rest)

unfoldable pub extract_attachment_requirement : FormItems → Option FormFeaturePolicyMode
extract_attachment_requirement form_items =
    if has_attachment_field form_items then some FormFeaturePolicyMode.required else none

-- `keys.join('/')` with a slash before each key.
abbrev pub slashed : List String → String
slashed [] = ""
slashed (key ∷ keys) = String.◌∷◌ "/" (String.◌++◌ key (slashed keys))

abbrev pub safe_access_class : ItemHead → Value
safe_access_class head =
    if is_access_class_value (prop head.access_control "class")
    then prop head.access_control "class"
    else undefined

abbrev pub safe_field : Value → Value → Value → Value → Value → Value → Value
safe_field path label access_class visible_to plaintext effective = obj (
    field "path" path (
      field "label" label (
        field "accessClass" access_class (
          field "visibleTo" (string_array visible_to) (
            field "plaintextAudiences" (string_array plaintext)
              (field "effectiveAudiences" (string_array effective) end))))))

-- The field of an item under its ancestors, where the item has a safe access class.
abbrev pub field_of_item : List String → ItemHead → List Value
field_of_item ancestors head =
    if is_undefined (safe_access_class head)
    then []
    else safe_field (str (slashed (ancestors ++ head.key ∷ []))) head.label (safe_access_class head)
        head.visible_to (prop head.access_control "plaintextAudiences")
        (prop head.access_control "effectiveAudiences")
      ∷ []

abbrev pub safe_address_fields_from_items : FormItems → List String → List Value
safe_address_fields_from_items no_items ancestors = []
safe_address_fields_from_items (more_items (form_item head children) rest) ancestors =
    let below = safe_address_fields_from_items children (ancestors ++ head.key ∷ []) in
    field_of_item ancestors head
    ++ ((if is_group head then below else []) ++ safe_address_fields_from_items rest ancestors)

-- The field of an entry that has a path and a safe class.
abbrev pub field_of_entry : Value → List Value
field_of_entry entry =
    if is_plain_object entry
      && (is_access_class_value (prop entry "accessClass")
          && is_non_empty_string (prop entry "path"))
    then safe_field (prop entry "path") (non_empty_string (prop entry "label"))
        (prop entry "accessClass") (prop entry "visibleTo") (prop entry "plaintextAudiences")
        (prop entry "effectiveAudiences")
      ∷ []
    else []

abbrev pub fields_of_entries : List Value → List Value
fields_of_entries [] = []
fields_of_entries (entry ∷ entries) = field_of_entry entry ++ fields_of_entries entries

-- `safeAddressFieldArray(value) ?? []`
unfoldable pub safe_address_field_array : Value → List Value
safe_address_field_array value = fields_of_entries (elements value)

unfoldable pub parse_safe_address_renderer_hints : Value → Value
parse_safe_address_renderer_hints value =
    if not (is_plain_object value)
    then undefined
    else if is_non_empty_string (prop value "maskRenderToken")
        || is_non_empty_string (prop value "revealAffordanceLabel")
    then obj (
        field "maskRenderToken" (non_empty_string (prop value "maskRenderToken")) (
          field "revealAffordanceLabel" (non_empty_string (prop value "revealAffordanceLabel"))
            end))
    else undefined

abbrev pub safe_class_array : Value → Value
safe_class_array value =
    let classes = filter is_access_class_value (elements value) in
    if is_empty classes then undefined else arr (of_list classes)

pub record SafeAddressBlock : Type 0 where
  pub enabled : Bool
  pub mode : Option String
  pub receipt_posture_tier : Value
  pub enabled_classes : Value
  pub acp_jurisdictions_accepted : Value
  pub authorized_audiences : Value
  pub substitute_address_directory_ref : Value
  pub fields : List Value
  pub renderer_hints : Value

abbrev pub bare_block : Bool → SafeAddressBlock
bare_block enabled = record {
  enabled = enabled;
  mode = none;
  receipt_posture_tier = undefined;
  enabled_classes = undefined;
  acp_jurisdictions_accepted = undefined;
  authorized_audiences = undefined;
  substitute_address_directory_ref = undefined;
  fields = [];
  renderer_hints = undefined;
}

abbrev pub block_mode : Value → Option String
block_mode value =
    if is_str value "optional"
    then some "optional"
    else if is_str value "required"
    then some "required"
    else none

abbrev pub is_some_mode : Option String → Bool
is_some_mode none = false
is_some_mode (some mode) = true

unfoldable pub parse_safe_address_block : Value → SafeAddressBlock
parse_safe_address_block value =
    if is_true value
    then bare_block true
    else if not (is_plain_object value)
    then bare_block false
    else record {
      enabled = is_true (prop value "enabled") || is_some_mode (block_mode (prop value "mode"));
      mode = block_mode (prop value "mode");
      receipt_posture_tier =
          (if is_safe_address_receipt_posture_tier (prop value "receiptPostureTier")
            then prop value "receiptPostureTier"
            else undefined);
      enabled_classes = safe_class_array (prop value "enabledClasses");
      acp_jurisdictions_accepted = string_array (prop value "acpJurisdictionsAccepted");
      authorized_audiences = string_array (prop value "authorizedAudiences");
      substitute_address_directory_ref =
          non_empty_string (prop value "substituteAddressDirectoryRef");
      fields = safe_address_field_array (prop value "fields");
      renderer_hints = parse_safe_address_renderer_hints (prop value "rendererHints");
    }

-- `[...new Set(fields.map((field) => field.accessClass))]`
abbrev pub unique_safe_classes : List Value → Value
unique_safe_classes fields =
    arr (of_list (map str (unique (strings (map (λ f. prop f "accessClass") fields)))))

abbrev pub no_strings : Value
no_strings = arr (of_list [])

abbrev pub safe_address_config : SafeAddressBlock → List Value → Value
safe_address_config block fields = obj (
    field "enabledClasses" (or_value block.enabled_classes (unique_safe_classes fields)) (
      field "receiptPostureTier" (or_value block.receipt_posture_tier (str "phase-1-fallback")) (
        field "substituteAddressDirectoryRef"
          (or_value block.substitute_address_directory_ref (str "composition:safeAddressDirectory"))
          (field "acpJurisdictionsAccepted" (or_value block.acp_jurisdictions_accepted no_strings) (
            field "authorizedAudiences" (or_value block.authorized_audiences no_strings) (
              field "fields" (arr (of_list fields))
                (field "rendererHints" block.renderer_hints end)))))))

abbrev pub mode_or : Option String → String → String
mode_or none other = other
mode_or (some mode) other = mode

unfoldable pub extract_safe_address_policy : FormDefinition → FormItems → Option PolicyDocument
extract_safe_address_policy definition form_items =
    let raw = prop definition.extensions "x-formspec-safe-address" in
    let block = parse_safe_address_block raw in
    let fields = safe_address_fields_from_items form_items [] ++ block.fields in
    if is_false raw && is_empty fields
    then some (record {
      features = ("safeAddress", some "forbidden") ∷ [];
      limits = undefined;
      record_lifecycle = undefined;
    })
    else if not block.enabled && is_empty fields
    then none
    else some (record {
      features =
          (
            "safeAddress",
            some (if is_empty fields then mode_or block.mode "required" else "required"),
          )
          ∷ [];
      limits = obj (field "safeAddress" (safe_address_config block fields) end);
      record_lifecycle = undefined;
    })
