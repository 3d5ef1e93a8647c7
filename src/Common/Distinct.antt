-- ===== src/Common/Distinct.antt =====
-- Lists of distinct texts, and lists grown at their end.
use Prim.Native.String.{String}
use mathlib.Core.Path.{◌≡◌, refl}
use mathlib.Core.Bool.{Bool, false, ◌||◌}
use mathlib.Core.List.{List, [], ◌∷◌, ◌++◌, map}
use native.Mathlib.Omega.{arith}
use text.Mathlib.Text.{◌==◌ as str_eq}
use text.Mathlib.TextEquality.{eq_iff}
use formspec_web.Common.Lists.{includes, any, All}

abbrev pub IsDistinct : List String → Type 0
IsDistinct [] = Unit
IsDistinct (x ∷ xs) = (includes xs x ≡ false) × IsDistinct xs

pub includes-append :
    (xs : List String) (y x : String) → includes (xs ++ y ∷ []) x ≡ (includes xs x || str_eq y x)
includes-append [] y x = ground arith
includes-append (z ∷ xs) y x = ground (arith, includes-append xs y x)

pub append-IsDistinct :
    (xs : List String) (y : String)
    → IsDistinct xs
    → includes xs y ≡ false
    → IsDistinct (xs ++ y ∷ [])
append-IsDistinct [] y h new = (refl, tt)
append-IsDistinct (x ∷ xs) y (fresh, h) new = (
  ground (arith, includes-append xs y x, eq_iff x y, eq_iff y x),
  append-IsDistinct xs y h (ground arith),
)

module _ {ℓ} {A : Type ℓ} where
  pub any-append : (p : A → Bool) (xs ys : List A) → any p (xs ++ ys) ≡ (any p xs || any p ys)
  any-append p [] ys = refl
  any-append p (x ∷ xs) ys = ground (arith, any-append p xs ys)

  pub map-append {κ} :
      {B : Type κ} (f : A → B) (xs : List A) (y : A) → map f (xs ++ y ∷ []) ≡ map f xs ++ f y ∷ []
  map-append f [] y = refl
  map-append f (x ∷ xs) y = ground (arith, map-append f xs y)

  pub All-append {κ} :
      (P : A → Type κ) (xs : List A) (y : A) → All P xs → P y → All P (xs ++ y ∷ [])
  All-append P [] y h p = (p, tt)
  All-append P (x ∷ xs) y (q, h) p = (q, All-append P xs y h p)

  pub All-imp {κ μ} :
      (P : A → Type κ) (Q : A → Type μ) (xs : List A) → ((x : A) → P x → Q x) → All P xs → All Q xs
  All-imp P Q [] f h = tt
  All-imp P Q (x ∷ xs) f (p, h) = (f x p, All-imp P Q xs f h)

  pub any-includes :
      (f : A → String) (xs : List A) (s : String)
      → any (λ x. str_eq (f x) s) xs ≡ includes (map f xs) s
  any-includes f [] s = refl
  any-includes f (x ∷ xs) s = ground (arith, any-includes f xs s)
