-- ===== src/Policy/ExtractParties/Accepted.antt =====
-- Which of the extracted multi-party policies the resolver's validator accepts.
use mathlib.Core.Path.{subst}
use formspec_web.Common.{
  ℕ, suc, zero, ◌≤◌, String, ◌≡◌, refl, ap, sym, ◌∙◌, ◌↔◌, ◌⊎◌, inl, inr, ◌≢◌, true, ◌&&◌, ◌||◌,
  some, List, [], ◌∷◌, map, All, All-imp, done, filter, length, IsDistinct, arith, Bool-cases,
  Option-cases, if◌then◌else◌,
}
use formspec_web.Js.{
  items-of_list, Value, undefined, int, pos, negsuc, str, obj, end, field, items, of_list, elements,
  prop, get, is_plain_object, is_array, is_str, is_non_empty_string, or_value,
}
use formspec_web.Policy.Errors.{RuntimePolicyDocumentKind}
use formspec_web.Policy.Checks.Laws.{IsOptionalStringArray}
use formspec_web.Policy.MultiParty.{
  is_integer_from, validate_multi_party_limits, is_multi_party_role, is_invitation_channel,
}
use formspec_web.Policy.MultiParty.Cardinality.{
  IsOneOf, IsNonEmptyString, is_str_iff, is_non_empty_string_iff, IsCardinality,
}
use formspec_web.Policy.MultiParty.Party.{IsParty, SharesAudience, is_role_iff}
use formspec_web.Policy.MultiParty.WellFormed.{
  IsMultiPartyConfig, IsDeadlinePolicy, role_ids, validate_multi_party_limits_iff,
}
use formspec_web.Policy.ExtractParties.{
  string_array, positive_integer, non_empty_string, parse_multi_party_cardinality,
  parse_multi_party_deadline_policy, scope_of, parse_multi_party_role, role_block, policy_block,
  parse_parties, is_tier, parse_multi_party_block,
}

-- The maximum of an extracted cardinality is no number, or not below the minimum.
abbrev pub IsBounded : Value → Type 0
IsBounded c =
    (prop c "max" ≡ str "unbounded") ⊎ (is_integer_from (prop c "min") (prop c "max") ≡ true)

positive_or :
    (v : Value) (n : ℕ)
    → (m : ℕ) × (or_value (positive_integer v) (int (pos (suc n))) ≡ int (pos (suc m)))
positive_or (int (pos zero)) n = (n, refl)
positive_or (int (pos (suc m))) n = (m, refl)
positive_or (int (negsuc m)) n = (n, refl)
positive_or _ n = (n, refl)

bound_of :
    (n : ℕ) (max : Value)
    → is_integer_from (int (pos (suc n))) max ≡ true
    → (m : ℕ) × (max ≡ int (pos m)) × (suc n ≤ m)
bound_of n (int (pos m)) h = (m, refl, ground arith)
bound_of n (int (negsuc m)) h = absurd (ground arith)
bound_of n _ h = cc

-- An extracted cardinality has a positive minimum.
parse_cardinality-shape :
    (v : Value)
    → (n : ℕ) × (max : Value) × (parse_multi_party_cardinality v
        ≡ obj (field "min" (int (pos (suc n))) (field "max" max end)))
unfolding parse_multi_party_cardinality
parse_cardinality-shape v = elim (Bool-cases (is_plain_object v)) [
  | inr other ↦ (0, int (pos 1), rw other refl)
  | inl block ↦
      let (n, min) = positive_or (prop v "min") 0 in
      (
        n,
        (if is_str (prop v "max") "unbounded"
            then str "unbounded"
            else or_value (positive_integer (prop v "max")) (int (pos (suc n)))),
        rw (block, min) refl,
      )
]

parse_multi_party_cardinality-IsCardinality :
    (v : Value)
    → IsBounded (parse_multi_party_cardinality v)
    → IsCardinality (parse_multi_party_cardinality v)
unfolding get
parse_multi_party_cardinality-IsCardinality v h =
    let (n, max, shape) = parse_cardinality-shape v in
    subst IsCardinality (sym shape) (
      refl,
      (
        n,
        refl,
        elim (subst IsBounded shape h) [
          | inl unbounded ↦ inl unbounded
          | inr above ↦ inr (bound_of n max above)
        ],
      ),
    )

kept_strings :
    (vs : List Value)
    → (xs : List String) × (filter is_non_empty_string vs ≡ map str xs) × All (λ s. s ≢ "") xs
kept_strings [] = ([], refl, tt)
kept_strings (v ∷ vs) =
    let (xs, e, h) = kept_strings vs in
    elim (Bool-cases (is_non_empty_string v)) [
      | inr no_text ↦ (xs, ground (arith, no_text, e), h)
      | inl text ↦
          let (s, same, non_empty) = (is_non_empty_string_iff v).0 text in
          (s ∷ xs, ground (arith, text, e, same), (non_empty, h))
    ]

pub string_array-IsOptionalStringArray : (v : Value) → IsOptionalStringArray (string_array v)
unfolding string_array
string_array-IsOptionalStringArray v = elim (Bool-cases (is_array v)) [
  | inr other ↦ inl (rw other refl)
  | inl listed ↦ let (xs, e, h) = kept_strings (elements v) in inr (xs, rw (listed, e) refl, h)
]

scope_of-IsOneOf : (v : Value) → IsOneOf ("shared" ∷ "scoped" ∷ []) (scope_of v)
scope_of-IsOneOf v = elim (Bool-cases (is_str v "scoped" || is_str v "shared")) [
  | inr other ↦ rw other (inl refl)
  | inl known ↦ rw known (ground (arith, known, is_str_iff v "shared", is_str_iff v "scoped"))
]

-- What the tests of a role established.
parse_role-parts :
    (v p : Value)
    → parse_multi_party_role v ≡ some p
    → (is_non_empty_string (prop v "roleId") ≡ true)
      × (is_multi_party_role (prop v "role") ≡ true)
      × (role_block v ≡ p)
unfolding parse_multi_party_role
parse_role-parts v p h =
    elim (Bool-cases (
      is_plain_object v
      && (is_non_empty_string (prop v "roleId") && is_multi_party_role (prop v "role")))) [
        | inl good ↦ (ground (arith, good), ground (arith, good), ground (arith, good))
        | inr bad ↦ absurd (ground (arith, bad))
      ]

parse_role-IsParty :
    (v p : Value)
    → parse_multi_party_role v ≡ some p
    → IsBounded (prop p "cardinality")
    → SharesAudience p
    → IsParty p
unfolding get
parse_role-IsParty v p h bounded shares =
    let (named, role, same) = parse_role-parts v p h in
    subst IsParty same (record {
      is_object = refl;
      named = (is_non_empty_string_iff _).0 named;
      role = (is_role_iff (prop v "role")).0 role;
      visibility = scope_of-IsOneOf (prop v "visibilityScope");
      cardinality =
          parse_multi_party_cardinality-IsCardinality (prop v "cardinality")
            (subst (λ q. IsBounded (prop q "cardinality")) (sym same) bounded);
      visible_to = string_array-IsOptionalStringArray (prop v "visibleTo");
      editable_by = string_array-IsOptionalStringArray (prop v "editableBy");
      signed_by = string_array-IsOptionalStringArray (prop v "signedBy");
      safe_address_audience = string_array-IsOptionalStringArray (prop v "safeAddressAudience");
      shares = subst SharesAudience (sym same) shares;
    })

non_empty_or :
    (v : Value) → (non_empty_string v ≡ undefined) ⊎ IsNonEmptyString (non_empty_string v)
non_empty_or v = elim (Bool-cases (is_non_empty_string v)) [
  | inr other ↦ inl (rw other refl)
  | inl text ↦ inr (rw text ((is_non_empty_string_iff v).0 text))
]

parse_deadline-IsDeadlinePolicy :
    (v : Value) → IsDeadlinePolicy (parse_multi_party_deadline_policy v)
unfolding parse_multi_party_deadline_policy get
parse_deadline-IsDeadlinePolicy v = elim (Bool-cases (is_plain_object v)) [
  | inr other ↦ inl (rw other refl)
  | inl block ↦
      elim (Bool-cases (
        is_str (prop v "expirationAction") "convert-to-partial"
        || is_str (prop v "expirationAction") "void-submission")) [
          | inr other ↦ inl (rw (block, other) refl)
          | inl known ↦ inr (
              rw (block, known)
                (
                  refl,
                  ground (
                    arith,
                    known,
                    is_str_iff (prop v "expirationAction") "convert-to-partial",
                    is_str_iff (prop v "expirationAction") "void-submission",
                  ),
                  non_empty_or (prop v "perPartyDeadline"),
                ))
        ]
]

-- Beyond its form, what a party must satisfy.
abbrev pub IsSatisfiable : Value → Type 0
IsSatisfiable p = IsBounded (prop p "cardinality") × SharesAudience p

parse_parties-IsParty :
    (vs : List Value) → All IsSatisfiable (parse_parties vs) → All IsParty (parse_parties vs)
parse_parties-IsParty [] h = tt
parse_parties-IsParty (v ∷ vs) h = elim (Option-cases (parse_multi_party_role v)) [
  | inl none_here ↦
      rw (All, parse_parties, none_here)
        (parse_parties-IsParty vs (rw (All, parse_parties, none_here) at h))
  | inr (p, e) ↦
      let ((bounded, shares), rest) = rw (All, parse_parties, e) at h in
      rw (All, parse_parties, e)
        (parse_role-IsParty v p e bounded shares, parse_parties-IsParty vs rest)
]

IsParty-IsSatisfiable : (p : Value) → IsParty p → IsSatisfiable p
IsParty-IsSatisfiable p h =
    let (n, min, bound) = h.cardinality.1 in
    (
      elim bound [
        | inl unbounded ↦ inl unbounded
        | inr (m, max, above) ↦ inr (rw (min, max) (ground arith))
      ],
      h.shares,
    )

parse_block-parts :
    (v policy : Value)
    → parse_multi_party_block v ≡ some policy
    → (is_tier (prop v "tier") ≡ true)
      × (2 ≤ length (parse_parties (elements (prop v "parties"))))
      × (policy_block v ≡ policy)
unfolding parse_multi_party_block
parse_block-parts v policy h = ground arith

channel_of :
    (v : Value)
    → IsOneOf
        ("magic-link" ∷ "wos-task" ∷ "out-of-band" ∷ [])
        (if is_invitation_channel v then v else str "out-of-band")
channel_of v = elim (Bool-cases (is_invitation_channel v)) [
  | inr other ↦ rw other (inr (inr (inl refl)))
  | inl known ↦ rw known (
      ground (
        arith,
        known,
        is_str_iff v "magic-link",
        is_str_iff v "wos-task",
        is_str_iff v "out-of-band",
      ))
]

block-IsMultiPartyConfig :
    (v : Value)
    → is_tier (prop v "tier") ≡ true
    → 2 ≤ length (parse_parties (elements (prop v "parties")))
    → IsDistinct (role_ids (parse_parties (elements (prop v "parties"))))
    → All IsSatisfiable (parse_parties (elements (prop v "parties")))
    → IsMultiPartyConfig (policy_block v)
unfolding get
block-IsMultiPartyConfig v tier two distinct satisfiable =
    let parties = parse_parties (elements (prop v "parties")) in
    let same : parties ≡ items (of_list parties) = sym (items-of_list parties) in
    record {
      is_object = refl;
      tier = ground (
        arith,
        tier,
        is_str_iff (prop v "tier") "coEqual",
        is_str_iff (prop v "tier") "asymmetric",
      );
      listed = refl;
      two = subst (λ ps. 2 ≤ length ps) same two;
      parties =
          subst (All IsParty) same
            (parse_parties-IsParty (elements (prop v "parties")) satisfiable);
      distinct = subst (λ ps. IsDistinct (role_ids ps)) same distinct;
      channel = inr (channel_of (prop v "invitationChannel"));
      deadline = parse_deadline-IsDeadlinePolicy (prop v "deadlinePolicy");
    }

-- The resolver's validator accepts an extracted multi-party policy, in either layer, exactly if no role
-- id stands twice in it, and each party's maximum is unbounded or not below its minimum and each party
-- shares an audience with its safe-address policy.
pub parse_multi_party_block-valid_iff :
    (v policy : Value) (layer : RuntimePolicyDocumentKind)
    → parse_multi_party_block v ≡ some policy
    → (validate_multi_party_limits policy layer ≡ done) ↔ (
        IsDistinct (role_ids (elements (prop policy "parties")))
        × All IsSatisfiable (elements (prop policy "parties")))
unfolding get
parse_multi_party_block-valid_iff v policy layer h =
    let (tier, two, same) = parse_block-parts v policy h in
    let parties = parse_parties (elements (prop v "parties")) in
    let listed : items (of_list parties) ≡ elements (prop policy "parties") =
      ap (λ q. elements (prop q "parties")) same in
    (
      λ valid. elim ((validate_multi_party_limits_iff policy layer).0 valid) [
        | inl missing ↦ cc
        | inr config ↦
            (config.distinct, All-imp IsParty IsSatisfiable _ IsParty-IsSatisfiable config.parties)
      ],
      λ (distinct, satisfiable). (validate_multi_party_limits_iff policy layer).1 (
          inr (
            subst IsMultiPartyConfig same (
              block-IsMultiPartyConfig v tier two
                (subst (λ ps. IsDistinct (role_ids ps)) (sym listed ∙ items-of_list parties)
                  distinct)
                (subst (All IsSatisfiable) (sym listed ∙ items-of_list parties) satisfiable)))),
    )
