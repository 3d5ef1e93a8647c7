-- ===== src/Adapters/DraftBindingRegistry/Reached.antt =====
-- The registries that puts, deletes and reloads of the page lead to.
use formspec_web.Common.{
  String, ◌≡◌, refl, sym, ap, ◌∙◌, true, false, Option, none, some, List, [], ◌∷◌, map, ok, done,
  All, arith, Bool-cases, inl, inr,
}
use formspec_web.Js.{undefined}
use formspec_web.Adapters.DraftBindingRegistry.{
  DraftKey, DraftBindingSnapshot, Binding, Registry, set_binding, restore, persist, put_binding,
  delete_binding, entries, with_response_id, binding_of, same_key, same_scope, written,
  without_scope,
}
use formspec_web.Adapters.DraftBindingRegistry.Keys.{
  HasDistinctKeys, set-HasDistinctKeys, without_scope-HasDistinctKeys,
}
use formspec_web.Adapters.DraftBindingRegistry.Reload.{
  is_storable, reloaded, reload, holding, written-reloaded, restore-written,
}

abbrev IsKept : List Binding → Type 0
IsKept bs = HasDistinctKeys bs × All (λ b. is_storable b ≡ true) bs

All-set_binding :
    (bs : List Binding) (key : DraftKey) (snapshot : DraftBindingSnapshot)
    → All (λ b. is_storable b ≡ true) bs
    → is_storable (record { key = key; snapshot = snapshot }) ≡ true
    → All (λ b. is_storable b ≡ true) (set_binding bs key snapshot)
All-set_binding [] key snapshot h good = (good, tt)
All-set_binding (b ∷ bs) key snapshot (e, h) good = elim (Bool-cases (same_key b.key key)) [
  | inl same ↦ rw same (good, h)
  | inr other ↦ rw other (e, All-set_binding bs key snapshot h good)
]

binding_of-reloaded :
    (bs : List Binding) (key : DraftKey)
    → binding_of bs key ≡ none
    → binding_of (map reloaded bs) key ≡ none
binding_of-reloaded [] key h = refl
binding_of-reloaded (b ∷ bs) key h = ground (arith, binding_of-reloaded bs key)

reloaded-IsKept : (bs : List Binding) → IsKept bs → IsKept (map reloaded bs)
reloaded-IsKept [] h = h
reloaded-IsKept (b ∷ bs) ((new, d), (e, h)) =
    let (distinct, storable) = reloaded-IsKept bs (d, h) in
    ((binding_of-reloaded bs b.key new, distinct), (e, storable))

module _ (form_id_of : String → Option String → String) where
  All-without_scope :
      (bs : List Binding) (key : DraftKey)
      → All (λ b. is_storable b ≡ true) bs
      → All (λ b. is_storable b ≡ true) (without_scope form_id_of bs key)
  All-without_scope [] key h = tt
  All-without_scope (b ∷ bs) key (e, h) = elim (Bool-cases (same_scope form_id_of b.key key)) [
    | inl same ↦ rw same (All-without_scope bs key h)
    | inr other ↦ rw other (e, All-without_scope bs key h)
  ]

  -- The registries of a page with a store of metadata that was empty, after puts of bindings that can be
  -- stored, deletes, and reloads of the page.
  pub data Reached : Registry → Type 0 where
    opened : Reached (record { bindings = []; restored = false; metadata = some undefined })
    putting :
        (registry : Registry) (key : DraftKey) (snapshot : DraftBindingSnapshot)
        → Reached registry
        → is_storable (record { key = key; snapshot = with_response_id snapshot }) ≡ true
        → Reached (put_binding form_id_of registry key snapshot).0
    deleting :
        (registry : Registry) (key : DraftKey)
        → Reached registry
        → Reached (delete_binding form_id_of registry key)
    reloading : (registry : Registry) → Reached registry → Reached (reload registry)

  -- What the registry has once it has restored, which is what its store has.
  record Holds (registry : Registry) : Type 0 where
    bindings_held : List Binding
    kept : IsKept bindings_held
    restores : restore form_id_of registry ≡ (holding form_id_of bindings_held, done)
    stored : registry.metadata ≡ some (written form_id_of bindings_held)

  holding-Holds : (bs : List Binding) → IsKept bs → Holds (holding form_id_of bs)
  unfolding restore
  holding-Holds bs h = record { bindings_held = bs; kept = h; restores = refl; stored = refl }

  put-Holds :
      (registry : Registry) (key : DraftKey) (snapshot : DraftBindingSnapshot)
      → Holds registry
      → is_storable (record { key = key; snapshot = with_response_id snapshot }) ≡ true
      → Holds (put_binding form_id_of registry key snapshot).0
  unfolding put_binding persist
  put-Holds registry key snapshot h good =
      let bs = h.bindings_held in
      rw (put_binding, h.restores, h.restores, h.restores)
        (holding-Holds (set_binding bs key (with_response_id snapshot)) (
          set-HasDistinctKeys bs key (with_response_id snapshot) h.kept.0,
          All-set_binding bs key (with_response_id snapshot) h.kept.1 good,
        ))

  delete-Holds :
      (registry : Registry) (key : DraftKey)
      → Holds registry
      → Holds (delete_binding form_id_of registry key)
  unfolding delete_binding persist
  delete-Holds registry key h =
      let bs = h.bindings_held in
      rw (delete_binding, h.restores, h.restores, h.restores)
        (holding-Holds (without_scope form_id_of bs key) (
          without_scope-HasDistinctKeys form_id_of bs key h.kept.0,
          All-without_scope bs key h.kept.1,
        ))

  restore-reload :
      (registry : Registry) (h : Holds registry)
      → restore form_id_of (reload registry)
        ≡ (holding form_id_of (map reloaded h.bindings_held), done)
  restore-reload registry h =
      ap (λ m. restore form_id_of (record { bindings = []; restored = false; metadata = m }))
        h.stored
      ∙ restore-written form_id_of h.bindings_held h.kept.0 h.kept.1

  reload-Holds : (registry : Registry) → Holds registry → Holds (reload registry)
  reload-Holds registry h = record {
    bindings_held = map reloaded h.bindings_held;
    kept = reloaded-IsKept h.bindings_held h.kept;
    restores = restore-reload registry h;
    stored = h.stored ∙ ap some (sym (written-reloaded form_id_of h.bindings_held));
  }

  Reached-Holds : (registry : Registry) → Reached registry → Holds registry
  unfolding restore
  Reached-Holds _ opened = record {
    bindings_held = [];
    kept = (tt, tt);
    restores = refl;
    stored = refl;
  }
  Reached-Holds _ (putting registry key snapshot h good) =
      put-Holds registry key snapshot (Reached-Holds registry h) good
  Reached-Holds _ (deleting registry key h) = delete-Holds registry key (Reached-Holds registry h)
  Reached-Holds _ (reloading registry h) = reload-Holds registry (Reached-Holds registry h)

  -- After any puts of bindings that can be stored, deletes and reloads, on a store that was empty, the
  -- registry gives its entries, and after one more reload the same entries in the same order, without
  -- their responses.
  pub entries-reload :
      (registry : Registry)
      → Reached registry
      → (bs : List Binding) × (((entries form_id_of registry).1 ≡ ok bs)
          × ((entries form_id_of (reload registry)).1 ≡ ok (map reloaded bs)))
  unfolding entries
  entries-reload registry h =
      let held = Reached-Holds registry h in
      (
        held.bindings_held,
        (
          rw (entries, held.restores, held.restores) refl,
          rw (entries, restore-reload registry held, restore-reload registry held) refl,
        ),
      )
