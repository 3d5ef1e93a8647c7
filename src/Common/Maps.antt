-- ===== src/Common/Maps.antt =====
-- A Map with strings for keys: its entries in the order of insertion.
use Prim.Native.String.{String}
use mathlib.Core.Path.{◌≡◌, refl}
use mathlib.Core.Option.{Option, none, some}
use mathlib.Core.List.{List, [], ◌∷◌}
use native.Mathlib.Omega.{arith}
use text.Mathlib.Text.{◌==◌ as str_eq}
use text.Mathlib.TextEquality.{eq_iff}
use formspec_web.Common.Tests.{if◌then◌else◌}

module _ {ℓ} {A : Type ℓ} where
  -- `map.get(name)`
  abbrev pub lookup : List (String × A) → String → Option A
  lookup [] name = none
  lookup ((k, v) ∷ m) name = if str_eq k name then some v else lookup m name

  -- `map.set(name, value)`
  abbrev pub insert : List (String × A) → String → A → List (String × A)
  insert [] name value = (name, value) ∷ []
  insert ((k, v) ∷ m) name value =
      if str_eq k name then (k, value) ∷ m else (k, v) ∷ insert m name value

  pub lookup-insert :
      (m : List (String × A)) (name : String) (value : A) (other : String)
      → lookup (insert m name value) other
        ≡ (if str_eq name other then some value else lookup m other)
  lookup-insert [] name value other = refl
  lookup-insert ((k, v) ∷ m) name value other =
      ground
        (arith, eq_iff k name, eq_iff k other, eq_iff name other, lookup-insert m name value other)
