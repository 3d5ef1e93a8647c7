-- ===== src/Tests/DraftBindings.antt =====
-- Examples for the registry of draft bindings (src/adapters/http/draft-binding-registry.ts).
use formspec_web.Common.{String, ◌≡◌, refl, Option, false, none, some, List, [], map, ok, err}
use formspec_web.Js.{get, int, pos, str, obj, field, end, undefined}
use formspec_web.Adapters.LifecycleActionClient.{is_blank}
use formspec_web.Adapters.DraftBindingRegistry.{
  DraftKey, DraftBindingSnapshot, Binding, Registry, put_binding, entries, persist, restore,
  same_key, same_scope, get_binding, delete_binding, draft_version_conflict,
}
use formspec_web.Adapters.DraftBindingRegistry.Reload.{reload, reloaded}
use formspec_web.Adapters.DraftBindingRegistry.Reached.{Reached, opened, putting, entries-reload}

abbrev url_of : String → Option String → String
url_of url version = url

abbrev key_of : Option String → DraftKey
key_of version = record {
  form_url = "urn:form";
  form_version = version;
  subject_ref = some "s";
  party_ref = none;
}

abbrev empty_registry : Registry
empty_registry = record { bindings = []; restored = false; metadata = some undefined }

abbrev first : DraftBindingSnapshot
first = record {
  draft_id = "d1";
  draft_version = int (pos 3);
  response = obj (field "id" (str "r1") end);
  response_id = undefined;
}

abbrev second : DraftBindingSnapshot
second = record {
  draft_id = "d2";
  draft_version = int (pos 0);
  response = undefined;
  response_id = undefined;
}

abbrev one_binding : Registry
one_binding = (put_binding url_of empty_registry (key_of (some "1.0")) first).0

abbrev two_bindings : Registry
two_bindings = (put_binding url_of one_binding (key_of none) second).0

two_bindings-Reached : Reached url_of two_bindings
unfolding is_blank get
two_bindings-Reached =
    putting one_binding (key_of none) second
      (putting empty_registry (key_of (some "1.0")) first opened refl) refl

entries-reload_example :
    (bs : List Binding) × (((entries url_of two_bindings).1 ≡ ok bs)
      × ((entries url_of (reload two_bindings)).1 ≡ ok (map reloaded bs)))
entries-reload_example = entries-reload url_of two_bindings two_bindings-Reached

version_refused :
    (get_binding url_of one_binding (key_of (some "2.0"))).1
    ≡ err (draft_version_conflict (key_of (some "2.0")) (some "1.0"))
unfolding put_binding persist restore same_key get get_binding same_scope
version_refused = refl

all_deleted : (delete_binding url_of two_bindings (key_of (some "2.0"))).bindings ≡ []
unfolding put_binding persist restore same_key get delete_binding same_scope
all_deleted = refl
