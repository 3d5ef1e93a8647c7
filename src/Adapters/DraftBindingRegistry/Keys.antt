-- ===== src/Adapters/DraftBindingRegistry/Keys.antt =====
-- Bindings under keys that differ from each other.
use mathlib.Core.Path.{subst}
use formspec_web.Common.{
  String, ◌≡◌, refl, sym, ap, ◌∙◌, true, false, Option, none, some, List, [], ◌∷◌, ◌++◌, All,
  Bool-cases, inl, inr, eq_iff, arith,
}
use formspec_web.Adapters.DraftBindingRegistry.{
  DraftKey, DraftBindingSnapshot, Binding, binding_of, set_binding, same_key, same_text, same_scope,
  without_scope,
}

abbrev pub HasDistinctKeys : List Binding → Type 0
HasDistinctKeys [] = Unit
HasDistinctKeys (b ∷ bs) = (binding_of bs b.key ≡ none) × HasDistinctKeys bs

same_text_eq : (a b : Option String) → same_text a b ≡ true → a ≡ b
same_text_eq none none h = refl
same_text_eq (some a) (some b) h = ap some ((eq_iff a b).0 h)
same_text_eq none (some b) h = cc
same_text_eq (some a) none h = cc

same_text_refl : (a : Option String) → same_text a a ≡ true
same_text_refl none = refl
same_text_refl (some a) = (eq_iff a a).1 refl

same_key_eq : (a b : DraftKey) → same_key a b ≡ true → a ≡ b
unfolding same_key
same_key_eq a b h =
    let url : a.form_url ≡ b.form_url = ground (arith, eq_iff a.form_url b.form_url) in
    let version = same_text_eq a.form_version b.form_version (ground arith) in
    let subject = same_text_eq a.subject_ref b.subject_ref (ground arith) in
    let party = same_text_eq a.party_ref b.party_ref (ground arith) in
    λ i. record {
      form_url = url i;
      form_version = version i;
      subject_ref = subject i;
      party_ref = party i;
    }

same_key_refl : (a : DraftKey) → same_key a a ≡ true
unfolding same_key
same_key_refl a = ground (
  arith,
  eq_iff a.form_url a.form_url,
  same_text_refl a.form_version,
  same_text_refl a.subject_ref,
  same_text_refl a.party_ref,
)

same_key_comm : (a b : DraftKey) → same_key a b ≡ same_key b a
same_key_comm a b = elim (Bool-cases (same_key a b)) [
  | inl h ↦ let e = same_key_eq a b h in ap (λ k. same_key k b) e ∙ ap (λ k. same_key b k) (sym e)
  | inr h ↦ elim (Bool-cases (same_key b a)) [
    | inl g ↦ let e = same_key_eq b a g in ap (λ k. same_key a k) e ∙ ap (λ k. same_key k a) (sym e)
    | inr g ↦ h ∙ sym g
  ]
]

pub set-appends :
    (bs : List Binding) (key : DraftKey) (snapshot : DraftBindingSnapshot)
    → binding_of bs key ≡ none
    → set_binding bs key snapshot ≡ bs ++ record { key = key; snapshot = snapshot } ∷ []
set-appends [] key snapshot h = refl
set-appends (b ∷ bs) key snapshot h = ground (arith, set-appends bs key snapshot)

binding_of-append :
    (bs : List Binding) (b : Binding) (key : DraftKey)
    → binding_of bs key ≡ none
    → same_key b.key key ≡ false
    → binding_of (bs ++ b ∷ []) key ≡ none
binding_of-append [] b key h apart = rw apart refl
binding_of-append (c ∷ bs) b key h apart = ground (arith, binding_of-append bs b key)

-- A binding that is appended is apart from the rest where it was before.
pub append-apart :
    (seen : List Binding) (b : Binding) (bs : List Binding)
    → All (λ c. binding_of seen c.key ≡ none) bs
    → binding_of bs b.key ≡ none
    → All (λ c. binding_of (seen ++ b ∷ []) c.key ≡ none) bs
append-apart seen b [] h new = tt
append-apart seen b (c ∷ bs) (e, h) new = (
  ground (arith, binding_of-append seen b c.key, same_key_comm b.key c.key),
  append-apart seen b bs h (ground arith),
)

binding_of-set :
    (bs : List Binding) (key other : DraftKey) (snapshot : DraftBindingSnapshot)
    → binding_of bs other ≡ none
    → same_key key other ≡ false
    → binding_of (set_binding bs key snapshot) other ≡ none
binding_of-set [] key other snapshot h apart = rw apart refl
binding_of-set (b ∷ bs) key other snapshot h apart =
    ground (arith, binding_of-set bs key other snapshot)

pub set-HasDistinctKeys :
    (bs : List Binding) (key : DraftKey) (snapshot : DraftBindingSnapshot)
    → HasDistinctKeys bs
    → HasDistinctKeys (set_binding bs key snapshot)
set-HasDistinctKeys [] key snapshot h = (refl, tt)
set-HasDistinctKeys (b ∷ bs) key snapshot (new, h) = elim (Bool-cases (same_key b.key key)) [
  | inl same ↦ rw same (subst (λ k. binding_of bs k ≡ none) (same_key_eq b.key key same) new, h)
  | inr other ↦ rw other (
    binding_of-set bs key b.key snapshot new (same_key_comm key b.key ∙ other),
    set-HasDistinctKeys bs key snapshot h,
  )
]

binding_of-without_scope :
    (form_id_of : String → Option String → String) (bs : List Binding) (key other : DraftKey)
    → binding_of bs other ≡ none
    → binding_of (without_scope form_id_of bs key) other ≡ none
binding_of-without_scope form_id_of [] key other h = refl
binding_of-without_scope form_id_of (b ∷ bs) key other h =
    ground (arith, binding_of-without_scope form_id_of bs key other)

pub without_scope-HasDistinctKeys :
    (form_id_of : String → Option String → String) (bs : List Binding) (key : DraftKey)
    → HasDistinctKeys bs
    → HasDistinctKeys (without_scope form_id_of bs key)
without_scope-HasDistinctKeys form_id_of [] key h = tt
without_scope-HasDistinctKeys form_id_of (b ∷ bs) key (new, h) =
    elim (Bool-cases (same_scope form_id_of b.key key)) [
      | inl same ↦ rw same (without_scope-HasDistinctKeys form_id_of bs key h)
      | inr other ↦ rw other (
        binding_of-without_scope form_id_of bs key b.key new,
        without_scope-HasDistinctKeys form_id_of bs key h,
      )
    ]
