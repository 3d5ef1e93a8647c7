-- ===== src/Adapters/DraftBindingRegistry/Reload.antt =====
-- The registry after a reload of the page, which keeps the stored metadata alone.
use formspec_web.Common.{
  String, ◌≡◌, refl, ap, ◌∙◌, Bool, true, false, not, ◌&&◌, Option, none, some, List, [], ◌∷◌, ◌++◌,
  map, done, All, append_nil, append_assoc, str_eq, eq_iff, arith,
}
use formspec_web.Js.{items-of_list, arr, of_list, Value, undefined, str, get, prop}
use formspec_web.Flow.Payment.{is_natural}
use formspec_web.Adapters.DraftBindingRegistry.{
  DraftKey, Binding, Registry, binding_of, set_binding, is_response_id, optional_text,
  is_optional_string, is_handle, key_from, snapshot_from, restore_bindings, restore, key_value,
  handle_value, written, response_id_field,
}
use formspec_web.Adapters.DraftBindingRegistry.Keys.{HasDistinctKeys, append-apart, set-appends}

-- A binding whose texts, version and response id are what the test of a stored handle asks for.
abbrev pub is_storable : Binding → Bool
is_storable b =
    not (str_eq b.key.form_url "")
    && (not (str_eq b.snapshot.draft_id "")
        && (is_natural b.snapshot.draft_version && is_response_id b.snapshot.response_id))

-- A binding without its response, which is not stored.
abbrev pub reloaded : Binding → Binding
reloaded b = record b { snapshot = record b.snapshot { response = undefined } }

-- The page is loaded anew.
abbrev pub reload : Registry → Registry
reload registry = record { bindings = []; restored = false; metadata = registry.metadata }

-- The value of a part of a key.
abbrev pub part : Option String → Value
part none = undefined
part (some text) = str text

read_parts :
    (url : String) (version subject party : Option String)
    → let value = key_value (record {
      form_url = url;
      form_version = version;
      subject_ref = subject;
      party_ref = party;
    }) in
      (prop value "formVersion" ≡ part version)
      × (prop value "subjectRef" ≡ part subject)
      × (prop value "partyRef" ≡ part party)
unfolding get
read_parts url none none none = (refl, refl, refl)
read_parts url none none (some p) = (refl, refl, refl)
read_parts url none (some s) none = (refl, refl, refl)
read_parts url none (some s) (some p) = (refl, refl, refl)
read_parts url (some v) none none = (refl, refl, refl)
read_parts url (some v) none (some p) = (refl, refl, refl)
read_parts url (some v) (some s) none = (refl, refl, refl)
read_parts url (some v) (some s) (some p) = (refl, refl, refl)

read_part :
    (o : Option String) → (optional_text (part o) ≡ o) × (is_optional_string (part o) ≡ true)
read_part none = (refl, refl)
read_part (some text) = (refl, refl)

key_from-key_value : (key : DraftKey) → key_from (key_value key) ≡ key
unfolding get
key_from-key_value key =
    let (version, subject, party) =
      read_parts key.form_url key.form_version key.subject_ref key.party_ref in
    rw
      (
        version,
        subject,
        party,
        (read_part key.form_version).0,
        (read_part key.subject_ref).0,
        (read_part key.party_ref).0,
      )
      refl

read_response_id : (id : Value) → get (response_id_field id) "responseId" ≡ id
unfolding get
read_response_id undefined = refl
read_response_id id = refl

snapshot_from-handle_value :
    (form_id_of : String → Option String → String) (b : Binding)
    → snapshot_from (handle_value form_id_of b) ≡ (reloaded b).snapshot
unfolding get
snapshot_from-handle_value form_id_of b = rw (read_response_id b.snapshot.response_id) refl

module _ (form_id_of : String → Option String → String) where
  is_handle-handle_value :
      (b : Binding) → is_storable b ≡ true → is_handle form_id_of (handle_value form_id_of b) ≡ true
  unfolding is_handle get
  is_handle-handle_value b h =
      let (version, subject, party) =
        read_parts b.key.form_url b.key.form_version b.key.subject_ref b.key.party_ref in
      ground (
        arith,
        read_response_id b.snapshot.response_id,
        version,
        subject,
        party,
        (read_part b.key.form_version).0,
        (read_part b.key.form_version).1,
        (read_part b.key.subject_ref).1,
        (read_part b.key.party_ref).1,
        eq_iff (form_id_of b.key.form_url b.key.form_version)
            (form_id_of b.key.form_url b.key.form_version),
      )

  restore_bindings-handle :
      (seen : List Binding) (entry : Value) (rest : List Value)
      → is_handle form_id_of entry ≡ true
      → restore_bindings form_id_of seen (entry ∷ rest)
        ≡ restore_bindings form_id_of
            (set_binding seen (key_from (prop entry "key")) (snapshot_from entry))
            rest
  unfolding restore_bindings
  restore_bindings-handle seen entry rest h = rw (restore_bindings, h) refl

  set-handle_value :
      (seen : List Binding) (b : Binding)
      → binding_of seen b.key ≡ none
      → set_binding seen (key_from (key_value b.key)) (snapshot_from (handle_value form_id_of b))
        ≡ seen ++ reloaded b ∷ []
  set-handle_value seen b new =
      ap (λ key. set_binding seen key (snapshot_from (handle_value form_id_of b)))
        (key_from-key_value b.key)
      ∙ ap (λ snapshot. set_binding seen b.key snapshot) (snapshot_from-handle_value form_id_of b)
      ∙ set-appends seen b.key (reloaded b).snapshot new

  restore_bindings-handles :
      (seen bs : List Binding)
      → HasDistinctKeys bs
      → All (λ b. is_storable b ≡ true) bs
      → All (λ b. binding_of seen b.key ≡ none) bs
      → restore_bindings form_id_of seen (map (handle_value form_id_of) bs)
        ≡ (seen ++ map reloaded bs, done)
  unfolding restore_bindings get
  restore_bindings-handles seen [] d h apart = ap (λ bindings. (bindings, done)) (append_nil seen)
  restore_bindings-handles seen (b ∷ bs) (new, d) (e, h) (fresh, apart) =
      restore_bindings-handle seen (handle_value form_id_of b) (map (handle_value form_id_of) bs)
        (is_handle-handle_value b e)
      ∙ ap (λ found. restore_bindings form_id_of found (map (handle_value form_id_of) bs))
          (set-handle_value seen b fresh)
      ∙ restore_bindings-handles (seen ++ reloaded b ∷ []) bs d h
          (append-apart seen (reloaded b) bs apart new)
      ∙ ap (λ found. (found, done)) (append_assoc seen (reloaded b ∷ []) (map reloaded bs))

  nothing_seen : (bs : List Binding) → All (λ b. binding_of [] b.key ≡ none) bs
  nothing_seen [] = tt
  nothing_seen (b ∷ bs) = (refl, nothing_seen bs)

  -- The registry that holds the bindings and has stored their handles.
  abbrev pub holding : List Binding → Registry
  holding bs = record { bindings = bs; restored = true; metadata = some (written form_id_of bs) }

  handles-reloaded :
      (bs : List Binding)
      → map (handle_value form_id_of) (map reloaded bs) ≡ map (handle_value form_id_of) bs
  handles-reloaded [] = refl
  handles-reloaded (b ∷ bs) = ap (λ rest. handle_value form_id_of b ∷ rest) (handles-reloaded bs)

  pub written-reloaded :
      (bs : List Binding) → written form_id_of (map reloaded bs) ≡ written form_id_of bs
  written-reloaded [] = refl
  written-reloaded (b ∷ bs) =
      ap (λ rest. arr (of_list (handle_value form_id_of b ∷ rest))) (handles-reloaded bs)

  -- Handles that were written are read back, in a registry that has read nothing.
  pub restore-written :
      (bs : List Binding)
      → HasDistinctKeys bs
      → All (λ b. is_storable b ≡ true) bs
      → restore form_id_of
          (record { bindings = []; restored = false; metadata = some (written form_id_of bs) })
        ≡ (holding (map reloaded bs), done)
  unfolding restore
  restore-written [] d h = refl
  restore-written (b ∷ bs) d h =
      rw
        (
          items-of_list (map (handle_value form_id_of) bs),
          restore_bindings-handles [] (b ∷ bs) d h (nothing_seen (b ∷ bs)),
          handles-reloaded bs,
        )
        refl
