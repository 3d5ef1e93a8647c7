-- ===== src/Policy/MultiParty/Cardinality.antt =====
-- What the validator of a cardinality accepts, stated without its tests.
use formspec_web.Common.{
  ℕ, zero, suc, ◌≤◌, String, ◌≡◌, refl, ◌≢◌, ◌↔◌, ◌⊎◌, inl, inr, Bool, true, ◌||◌, List, [], ◌∷◌,
  done, eq_iff, arith,
}
use formspec_web.Js.{
  pos, negsuc, Value, str, int, is_non_empty_string, is_plain_object, is_str, prop,
}
use formspec_web.Policy.Errors.{RuntimePolicyDocumentKind}
use formspec_web.Policy.MultiParty.{
  is_positive_integer, is_integer_from, validate_multi_party_cardinality,
}

-- One of some strings.
abbrev pub IsOneOf : List String → Value → Type 0
IsOneOf [] v = ⊥
IsOneOf (s ∷ ss) v = (v ≡ str s) ⊎ IsOneOf ss v

abbrev pub IsNonEmptyString : Value → Type 0
IsNonEmptyString v = (s : String) × (v ≡ str s) × (s ≢ "")

pub is_str_iff : (v : Value) (s : String) → (is_str v s ≡ true) ↔ (v ≡ str s)
is_str_iff (str t) s = ground (arith, eq_iff t s)
is_str_iff v s = ((λ h. cc), (λ h. cc))

pub is_non_empty_string_iff : (v : Value) → (is_non_empty_string v ≡ true) ↔ IsNonEmptyString v
is_non_empty_string_iff (str t) =
    ((λ h. (t, refl, ground (arith, eq_iff t ""))), (λ h. ground (arith, h.1, h.2, eq_iff t "")))
is_non_empty_string_iff v = ((λ h. cc), (λ h. cc h.1))

-- A whole number of parties, at least one, up to a bound that is not below it or to no bound.
abbrev pub IsCardinality : Value → Type 0
IsCardinality v =
    (is_plain_object v ≡ true)
    × ((n : ℕ) × (prop v "min" ≡ int (pos (suc n)))
        × ((prop v "max" ≡ str "unbounded")
            ⊎ ((m : ℕ) × (prop v "max" ≡ int (pos m)) × (suc n ≤ m))))

is_positive_integer_iff :
    (v : Value) → (is_positive_integer v ≡ true) ↔ ((n : ℕ) × (v ≡ int (pos (suc n))))
is_positive_integer_iff (int (pos zero)) = ((λ h. cc), (λ h. cc h.1))
is_positive_integer_iff (int (pos (suc n))) = ((λ h. (n, refl)), (λ h. ground arith))
is_positive_integer_iff (int (negsuc n)) = ((λ h. absurd (ground arith)), (λ h. cc h.1))
is_positive_integer_iff v = ((λ h. cc), (λ h. cc h.1))

abbrev IsBound : ℕ → Value → Type 0
IsBound lo v = (v ≡ str "unbounded") ⊎ ((m : ℕ) × (v ≡ int (pos m)) × (lo ≤ m))

abbrev has_bound : Value → Value → Bool
has_bound lo v = is_str v "unbounded" || is_integer_from lo v

has_bound_iff : (n : ℕ) (v : Value) → (has_bound (int (pos (suc n))) v ≡ true) ↔ IsBound (suc n) v
has_bound_iff n (str s) = (
  (λ h. inl (ground (arith, eq_iff s "unbounded"))),
  (λ h. elim h [ inl e ↦ ground (arith, eq_iff s "unbounded") | inr w ↦ cc w.1 ]),
)
has_bound_iff n (int (pos m)) = (
  (λ h. inr (m, refl, ground arith)),
  (λ h. elim h [ inl e ↦ cc | inr w ↦ (let e : w.0 ≡ m = cc w.1 in ground (arith, e, w.2)) ]),
)
has_bound_iff n (int (negsuc m)) =
    ((λ h. absurd (ground arith)), (λ h. elim h [ inl e ↦ cc | inr w ↦ cc w.1 ]))
has_bound_iff n v = ((λ h. cc), (λ h. elim h [ inl e ↦ cc | inr w ↦ cc w.1 ]))

cardinality_tests :
    (layer : RuntimePolicyDocumentKind) (v : Value)
    → (validate_multi_party_cardinality layer v ≡ done) ↔ (
        (is_plain_object v ≡ true)
        × (is_positive_integer (prop v "min") ≡ true)
        × (has_bound (prop v "min") (prop v "max") ≡ true))
unfolding validate_multi_party_cardinality
cardinality_tests layer v = ground arith

pub validate_multi_party_cardinality_iff :
    (layer : RuntimePolicyDocumentKind) (v : Value)
    → (validate_multi_party_cardinality layer v ≡ done) ↔ IsCardinality v
validate_multi_party_cardinality_iff layer v = (
  λ h.
      let (plain, low, high) = (cardinality_tests layer v).0 h in
      let (n, e) = (is_positive_integer_iff (prop v "min")).0 low in
      (plain, (n, e, (has_bound_iff n (prop v "max")).0 (rw e at high))),
  λ h. (cardinality_tests layer v).1 (
    h.0,
    (is_positive_integer_iff (prop v "min")).1 (h.1.0, h.1.1),
    rw (h.1.1) ((has_bound_iff h.1.0 (prop v "max")).1 h.1.2),
  ),
)
