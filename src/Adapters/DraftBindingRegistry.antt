-- ===== src/Adapters/DraftBindingRegistry.antt =====
-- The registry of draft bindings (src/adapters/http/draft-binding-registry.ts). Each operation gives the
-- state after it and its result, since a restore that throws may keep what it had read. The store of
-- the resume metadata holds the value that was written to it last, undefined if there is none; the
-- adopter's resolver of form ids is a parameter. Keys are compared by their four parts, as the source's
-- text of a key has them; a missing part and null are one.
pub mod Keys
pub mod Reached
pub mod Reload
use formspec_web.Common.{
  String, Bool, true, false, not, ◌&&◌, ◌||◌, Option, none, some, List, [], ◌∷◌, map, Result, ok,
  err, done, is_empty, str_eq, if◌then◌else◌,
}
use formspec_web.Js.{
  Value, undefined, int, pos, str, arr, obj, Fields, end, field, of_list, elements, is_array,
  is_undefined, is_string, is_non_empty_string, is_str, prop, truthy,
}
use formspec_web.Policy.MultiParty.{text_of}
use formspec_web.Flow.Payment.{is_natural}
use formspec_web.Adapters.LifecycleActionClient.{is_blank}

pub record DraftKey : Type 0 where
  pub form_url : String
  pub form_version : Option String
  pub subject_ref : Option String
  pub party_ref : Option String

-- A property that is missing is undefined.
pub record DraftBindingSnapshot : Type 0 where
  pub draft_id : String
  pub draft_version : Value
  pub response : Value
  pub response_id : Value

pub record Binding : Type 0 where
  pub key : DraftKey
  pub snapshot : DraftBindingSnapshot

-- The variables of the closure, and the store of the resume metadata if there is one.
pub record Registry : Type 0 where
  pub bindings : List Binding
  pub restored : Bool
  pub metadata : Option Value

pub data RegistryError : Type 0 where
  handles_invalid handle_mismatch : RegistryError
  draft_version_conflict : DraftKey → Option String → RegistryError

abbrev pub same_text : Option String → Option String → Bool
same_text none none = true
same_text (some a) (some b) = str_eq a b
same_text _ _ = false

-- `serializeKey(left) === serializeKey(right)`
unfoldable pub same_key : DraftKey → DraftKey → Bool
same_key left right =
    str_eq left.form_url right.form_url
    && (same_text left.form_version right.form_version
        && (same_text left.subject_ref right.subject_ref
            && same_text left.party_ref right.party_ref))

-- `map.get(serializeKey(key))`
abbrev pub binding_of : List Binding → DraftKey → Option DraftBindingSnapshot
binding_of [] key = none
binding_of (b ∷ bs) key = if same_key b.key key then some b.snapshot else binding_of bs key

-- `map.set(serializeKey(key), { key, snapshot })`
abbrev pub set_binding : List Binding → DraftKey → DraftBindingSnapshot → List Binding
set_binding [] key snapshot = record { key = key; snapshot = snapshot } ∷ []
set_binding (b ∷ bs) key snapshot =
    if same_key b.key key
    then record { key = key; snapshot = snapshot } ∷ bs
    else b ∷ set_binding bs key snapshot

abbrev pub optional_text : Value → Option String
optional_text (str s) = some s
optional_text v = none

abbrev pub is_optional_string : Value → Bool
is_optional_string v = is_undefined v || is_string v

-- A response id that is missing, or a text that is not blank.
abbrev pub is_response_id : Value → Bool
is_response_id undefined = true
is_response_id (str s) = not (is_blank s)
is_response_id v = false

abbrev pub key_from : Value → DraftKey
key_from key = record {
  form_url = text_of (prop key "formUrl");
  form_version = optional_text (prop key "formVersion");
  subject_ref = optional_text (prop key "subjectRef");
  party_ref = optional_text (prop key "partyRef");
}

abbrev pub snapshot_from : Value → DraftBindingSnapshot
snapshot_from entry = record {
  draft_id = text_of (prop entry "draftId");
  draft_version = prop entry "draftVersion";
  response = undefined;
  response_id = prop entry "responseId";
}

abbrev pub after_restore :
    Registry
    → List Binding × Result RegistryError (Unit {0})
    → Registry × Result RegistryError (Unit {0})
after_restore registry (bindings, ok _) =
    (record registry { bindings = bindings; restored = true }, done)
after_restore registry (bindings, err error) = (record registry { bindings = bindings }, err error)

abbrev pub optional_field : String → Option String → Fields → Fields
optional_field name none fs = fs
optional_field name (some text) fs = field name (str text) fs

-- The properties that copyKey keeps.
abbrev pub key_value : DraftKey → Value
key_value key = obj (
    field "formUrl" (str key.form_url) (
      optional_field "formVersion" key.form_version (
        optional_field "subjectRef" key.subject_ref (optional_field "partyRef" key.party_ref end))))

-- The property responseId where there is one.
abbrev pub response_id_field : Value → Fields
response_id_field id = if is_undefined id then end else field "responseId" id end

-- `{ ...snapshot, ...(snapshot.response?.id ? { responseId: snapshot.response.id } : {}) }`
abbrev pub with_response_id : DraftBindingSnapshot → DraftBindingSnapshot
with_response_id snapshot = record snapshot {
  response_id =
      (if truthy (prop snapshot.response "id")
        then prop snapshot.response "id"
        else snapshot.response_id);
}

module _ (form_id_of : String → Option String → String) where
  -- The tests on a stored handle.
  unfoldable pub is_handle : Value → Bool
  is_handle entry =
      let key = prop entry "key" in
      truthy key
      && (is_non_empty_string (prop key "formUrl")
          && (is_optional_string (prop key "formVersion")
              && (is_optional_string (prop key "subjectRef")
                  && (is_optional_string (prop key "partyRef")
                      && (is_non_empty_string (prop entry "draftId")
                          && (is_natural (prop entry "draftVersion")
                              && (is_response_id (prop entry "responseId")
                                  && is_str (prop entry "formId") (
                                      form_id_of (text_of (prop key "formUrl"))
                                        (optional_text (prop key "formVersion"))))))))))

  -- The loop over the stored handles: what it has read so far is kept when it throws.
  unfoldable pub restore_bindings :
      List Binding → List Value → List Binding × Result RegistryError (Unit {0})
  restore_bindings bindings [] = (bindings, done)
  restore_bindings bindings (entry ∷ entries) = elim (is_handle entry) [
    | false ↦ (bindings, err handle_mismatch)
    | true ↦
        restore_bindings (set_binding bindings (key_from (prop entry "key")) (snapshot_from entry))
          entries
  ]

  abbrev pub restore_saved : Registry → Value → Registry × Result RegistryError (Unit {0})
  restore_saved registry saved =
      if is_undefined saved
      then (record registry { restored = true }, done)
      else if not (is_array saved)
      then (registry, err handles_invalid)
      else after_restore registry (restore_bindings registry.bindings (elements saved))

  unfoldable pub restore : Registry → Registry × Result RegistryError (Unit {0})
  restore registry = if registry.restored then (registry, done) else elim registry.metadata [
    | none ↦ (record registry { restored = true }, done)
    | some saved ↦ restore_saved registry saved
  ]

  abbrev pub handle_value : Binding → Value
  handle_value b = obj (
      field "key" (key_value b.key) (
        field "formId" (str (form_id_of b.key.form_url b.key.form_version)) (
          field "draftId" (str b.snapshot.draft_id) (
            field "draftVersion" b.snapshot.draft_version
              (response_id_field b.snapshot.response_id)))))

  abbrev pub written : List Binding → Value
  written bindings =
      if is_empty bindings then undefined else arr (of_list (map handle_value bindings))

  unfoldable pub persist : Registry → Registry
  persist registry = record registry {
    metadata = elim registry.metadata [ none ↦ none | some _ ↦ some (written registry.bindings) ];
  }

  unfoldable pub same_scope : DraftKey → DraftKey → Bool
  same_scope left right =
      str_eq (form_id_of left.form_url left.form_version)
        (form_id_of right.form_url right.form_version)
      && (same_text left.subject_ref right.subject_ref && same_text left.party_ref right.party_ref)

  -- A binding of the same scope under another version of the form.
  abbrev pub find_conflict : List Binding → DraftKey → Option DraftKey
  find_conflict [] key = none
  find_conflict (b ∷ bs) key =
      if same_scope b.key key && not (same_text b.key.form_version key.form_version)
      then some b.key
      else find_conflict bs key

  unfoldable pub get_binding :
      Registry → DraftKey → Registry × Result RegistryError (Option DraftBindingSnapshot)
  get_binding registry key =
      let (open_registry, result) = restore registry in
      (
        open_registry,
        elim result [
          | err error ↦ err error
          | ok _ ↦ elim (binding_of open_registry.bindings key) [
            | some snapshot ↦ ok (some snapshot)
            | none ↦ elim (find_conflict open_registry.bindings key) [
              | some retained ↦ err (draft_version_conflict key retained.form_version)
              | none ↦ ok none
            ]
          ]
        ],
      )

  unfoldable pub put_binding :
      Registry → DraftKey → DraftBindingSnapshot → Registry × Result RegistryError (Unit {0})
  put_binding registry key snapshot =
      let (open_registry, result) = restore registry in
      elim result [
        | err error ↦ (open_registry, err error)
        | ok _ ↦ (
          persist (record open_registry {
            bindings = set_binding open_registry.bindings key (with_response_id snapshot);
          }),
          done,
        )
      ]

  abbrev pub without_scope : List Binding → DraftKey → List Binding
  without_scope [] key = []
  without_scope (b ∷ bs) key =
      if same_scope b.key key then without_scope bs key else b ∷ without_scope bs key

  unfoldable pub delete_binding : Registry → DraftKey → Registry
  delete_binding registry key =
      let (open_registry, result) = restore registry in
      elim result [
        | err error ↦ record {
          bindings = [];
          restored = true;
          metadata = elim open_registry.metadata [ none ↦ none | some _ ↦ some undefined ];
        }
        | ok _ ↦
            persist (record open_registry { bindings = without_scope open_registry.bindings key })
      ]

  unfoldable pub entries : Registry → Registry × Result RegistryError (List Binding)
  entries registry =
      let (open_registry, result) = restore registry in
      (open_registry, elim result [ err error ↦ err error | ok _ ↦ ok open_registry.bindings ])
