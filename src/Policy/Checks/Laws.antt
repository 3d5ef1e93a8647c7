-- ===== src/Policy/Checks/Laws.antt =====
-- What the shared checks establish.
use mathlib.Core.Path.{subst}
use formspec_web.Common.{
  sym, String, ◌≡◌, refl, ap, ◌≢◌, ◌↔◌, ◌⊎◌, inl, inr, true, List, [], ◌∷◌, map, done, All, all,
  eq_iff, arith,
}
use formspec_web.Js.{
  Value, undefined, str, arr, Items, nil, cons, items, of_list, is_non_empty_string,
}
use formspec_web.Policy.Errors.{RuntimePolicyDocumentKind}
use formspec_web.Policy.Checks.{validate_optional_string_array}

-- A missing value, or an array of strings none of which is empty.
abbrev pub IsOptionalStringArray : Value → Type 0
IsOptionalStringArray v =
    (v ≡ undefined) ⊎ ((xs : List String) × (v ≡ arr (of_list (map str xs))) × All (λ s. s ≢ "") xs)

strings_of_items :
    (xs : Items)
    → all is_non_empty_string (items xs) ≡ true
    → (ss : List String) × (xs ≡ of_list (map str ss)) × All (λ s. s ≢ "") ss
strings_of_items nil h = ([], refl, tt)
strings_of_items (cons (str s) xs) h =
    let (ss, e, p) = strings_of_items xs (ground arith) in
    (s ∷ ss, ap (cons (str s)) e, (ground (arith, eq_iff s ""), p))
strings_of_items (cons _ xs) h = cc

all_non_empty :
    (ss : List String)
    → All (λ s. s ≢ "") ss
    → all is_non_empty_string (items (of_list (map str ss))) ≡ true
all_non_empty [] h = refl
all_non_empty (s ∷ ss) (p, h) = ground (arith, eq_iff s "", all_non_empty ss h)

non_empty_of_arr :
    (xs : Items) (ss : List String)
    → arr xs ≡ arr (of_list (map str ss))
    → All (λ s. s ≢ "") ss
    → all is_non_empty_string (items xs) ≡ true
non_empty_of_arr xs ss e h =
    let same : xs ≡ of_list (map str ss) = cc in
    subst (λ ys. all is_non_empty_string (items ys) ≡ true) (sym same) (all_non_empty ss h)

pub validate_optional_string_array_iff :
    (layer : RuntimePolicyDocumentKind) (cite : String) (v : Value)
    → (validate_optional_string_array layer cite v ≡ done) ↔ IsOptionalStringArray v
unfolding validate_optional_string_array
validate_optional_string_array_iff layer cite undefined = (λ h. inl refl, λ h. refl)
validate_optional_string_array_iff layer cite (arr xs) = (
  λ h. (let (ss, e, p) = strings_of_items xs (ground arith) in inr (ss, ap arr e, p)),
  λ h. elim h [ inl e ↦ cc | inr w ↦ ground (arith, non_empty_of_arr xs w.0 w.1 w.2) ],
)
validate_optional_string_array_iff layer cite v =
    ((λ h. cc), (λ h. elim h [ inl e ↦ cc | inr w ↦ cc w.1 ]))
