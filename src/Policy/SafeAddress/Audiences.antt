-- ===== src/Policy/SafeAddress/Audiences.antt =====
-- Who may see the plaintext of a safe-address field.
use mathlib.Core.Path.{subst}
use formspec_web.Common.{
  inl, inr, String, ◌≡◌, refl, Bool, true, false, List, [], ◌∷◌, Option, none, some, ok, All,
  filter, includes, is_empty, str_eq, eq_iff, or_else, arith, Bool-cases, Option-cases,
}
use formspec_web.Policy.Shapes.{SafeAddressFieldPolicy}
use formspec_web.Policy.SafeAddress.{
  outside, not_visible, plaintext_of, resolve_effective, resolve_plaintext,
  resolve_safe_address_field_audience,
}

-- Every string of the first list is in the second.
abbrev pub IsWithin : List String → List String → Type 0
IsWithin xs ys = All (λ x. includes ys x ≡ true) xs

abbrev pub IsVisible : Option (List String) → List String → Type 0
IsVisible none xs = Unit
IsVisible (some visible) xs = IsWithin xs visible

-- A field whose plaintext goes to someone, and only to audiences that the safe-address policy
-- authorizes and that the party policy, if it says anything, lets see the field.
pub record IsProtected (authorized : List String) (f : SafeAddressFieldPolicy) : Type 0 where
  pub audiences : List String
  pub resolved : f.plaintext_audiences ≡ some audiences
  pub someone : is_empty audiences ≡ false
  pub authorized_only : IsWithin audiences authorized
  pub visible_only : IsVisible f.visible_to audiences

IsWithin-of_outside : (ys xs : List String) → is_empty (outside ys xs) ≡ true → IsWithin xs ys
IsWithin-of_outside ys [] h = tt
IsWithin-of_outside ys (x ∷ xs) h = ground (arith, IsWithin-of_outside ys xs)

pub IsWithin-filter : (ys xs : List String) → IsWithin (filter (includes ys) xs) ys
IsWithin-filter ys [] = tt
IsWithin-filter ys (x ∷ xs) = ground (arith, IsWithin-filter ys xs)

pub IsWithin-cons : (y : String) (xs ys : List String) → IsWithin xs ys → IsWithin xs (y ∷ ys)
IsWithin-cons y [] ys h = tt
IsWithin-cons y (x ∷ xs) ys h = ground (arith, IsWithin-cons y xs ys)

-- What is kept of a list was in it.
IsWithin-filter_self : (p : String → Bool) (xs : List String) → IsWithin (filter p xs) xs
IsWithin-filter_self p [] = tt
IsWithin-filter_self p (x ∷ xs) =
    ground (arith, eq_iff x x, IsWithin-cons x (filter p xs) xs (IsWithin-filter_self p xs))

includes-filter :
    (ds zs : List String) (x : String)
    → includes (filter (includes ds) zs) x ≡ true
    → includes ds x ≡ true
includes-filter ds (z ∷ zs) x h = elim (Bool-cases (includes ds z)) [
  | inr out ↦ includes-filter ds zs x (ground arith)
  | inl kept ↦ elim (Bool-cases (str_eq z x)) [
    | inl same ↦ subst (λ y. includes ds y ≡ true) ((eq_iff z x).0 same) kept
    | inr other ↦ includes-filter ds zs x (ground arith)
  ]
]
includes-filter ds [] x h = cc

IsWithin-trans : (ds zs xs : List String) → IsWithin xs (filter (includes ds) zs) → IsWithin xs ds
IsWithin-trans ds zs [] h = tt
IsWithin-trans ds zs (x ∷ xs) (p, h) = (includes-filter ds zs x p, IsWithin-trans ds zs xs h)

IsVisible-of_not_visible :
    (v : Option (List String)) (xs : List String)
    → is_empty (not_visible v xs) ≡ true
    → IsVisible v xs
IsVisible-of_not_visible none xs h = tt
IsVisible-of_not_visible (some v) xs h = IsWithin-of_outside v xs h

effective_parts :
    (f g : SafeAddressFieldPolicy) (effective defaults : List String)
    → resolve_effective f effective defaults ≡ ok g
    → (is_empty effective ≡ false)
      × (is_empty (outside defaults effective) ≡ true)
      × (is_empty (not_visible f.visible_to effective) ≡ true)
      × (record f { plaintext_audiences = some effective; effective_audiences = some effective }
          ≡ g)
unfolding resolve_effective
effective_parts f g effective defaults h = ground arith

effective_IsProtected :
    (f g : SafeAddressFieldPolicy) (effective defaults : List String)
    → resolve_effective f effective defaults ≡ ok g
    → IsProtected defaults g × (g.path ≡ f.path)
effective_IsProtected f g effective defaults h =
    let (someone, inside, seen, same) = effective_parts f g effective defaults h in
    rw (← same) (
      record {
        audiences = effective;
        resolved = refl;
        someone = someone;
        authorized_only = IsWithin-of_outside defaults effective inside;
        visible_only = IsVisible-of_not_visible f.visible_to effective seen;
      },
      refl,
    )

intersection_parts :
    (f g : SafeAddressFieldPolicy) (plaintext visible : List String)
    → resolve_plaintext f plaintext (some visible) ≡ ok g
    → (is_empty (filter (includes plaintext) visible) ≡ false)
      × (record f { plaintext_audiences = some (filter (includes plaintext) visible) } ≡ g)
unfolding resolve_plaintext
intersection_parts f g plaintext visible h = ground arith

plaintext_IsProtected :
    (f g : SafeAddressFieldPolicy) (defaults : List String) (visible : Option (List String))
    → f.visible_to ≡ visible
    → is_empty (plaintext_of f defaults) ≡ false
    → resolve_plaintext f (plaintext_of f defaults) visible ≡ ok g
    → IsProtected defaults g × (g.path ≡ f.path)
plaintext_IsProtected f g defaults none v e h =
    let same : record f { plaintext_audiences = some (plaintext_of f defaults) } ≡ g =
      unfold resolve_plaintext in cc in
    rw (← same) (
      record {
        audiences = plaintext_of f defaults;
        resolved = refl;
        someone = e;
        authorized_only = IsWithin-filter defaults (or_else f.plaintext_audiences defaults);
        visible_only = rw v tt;
      },
      refl,
    )
plaintext_IsProtected f g defaults (some visible) v e h =
    let (someone, same) = intersection_parts f g (plaintext_of f defaults) visible h in
    rw (← same) (
      record {
        audiences = filter (includes (plaintext_of f defaults)) visible;
        resolved = refl;
        someone = someone;
        authorized_only =
            IsWithin-trans defaults (or_else f.plaintext_audiences defaults) _
              (IsWithin-filter (plaintext_of f defaults) visible);
        visible_only = rw v (IsWithin-filter_self (includes (plaintext_of f defaults)) visible);
      },
      refl,
    )

computed_parts :
    (f g : SafeAddressFieldPolicy) (defaults : List String)
    → f.effective_audiences ≡ none
    → resolve_safe_address_field_audience f defaults ≡ ok g
    → (is_empty (plaintext_of f defaults) ≡ false)
      × (resolve_plaintext f (plaintext_of f defaults) f.visible_to ≡ ok g)
unfolding resolve_safe_address_field_audience
computed_parts f g defaults e h = ground arith

given_parts :
    (f g : SafeAddressFieldPolicy) (defaults effective : List String)
    → f.effective_audiences ≡ some effective
    → resolve_safe_address_field_audience f defaults ≡ ok g
    → resolve_effective f effective defaults ≡ ok g
unfolding resolve_safe_address_field_audience
given_parts f g defaults effective e h = ground arith

pub field_IsProtected :
    (f g : SafeAddressFieldPolicy) (defaults : List String)
    → resolve_safe_address_field_audience f defaults ≡ ok g
    → IsProtected defaults g × (g.path ≡ f.path)
field_IsProtected f g defaults h = elim (Option-cases f.effective_audiences) [
  | inr (effective, e) ↦
      effective_IsProtected f g effective defaults (given_parts f g defaults effective e h)
  | inl e ↦
      let (there, rest) = computed_parts f g defaults e h in
      plaintext_IsProtected f g defaults f.visible_to refl there rest
]
