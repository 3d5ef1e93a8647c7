-- ===== src/Policy/Checks.antt =====
-- Checks and reads of `unknown` values that the validators and resolvers share
-- (src/policy/resolver.ts, `validateOptionalStringArray`, `stringValue` and its neighbours).
pub mod Laws
use Prim.Native.String
use formspec_web.Common.{
  String, Bool, false, not, ◌&&◌, Option, none, some, List, [], ◌∷◌, throw_if, all, includes,
  filter, str_eq, if◌then◌else◌,
}
use formspec_web.Js.{Value, str, arr, items, is_undefined, is_non_empty_string, strings}
use formspec_web.Policy.Errors.{RuntimePolicyDocumentKind, Checked, invalid}

-- Entries that are all non-empty strings.
abbrev pub is_string_array : Value → Bool
is_string_array (arr xs) = all is_non_empty_string (items xs)
is_string_array v = false

unfoldable pub validate_optional_string_array :
    RuntimePolicyDocumentKind → String → Value → Checked (Unit {0})
validate_optional_string_array layer cite value =
    throw_if (not (is_undefined value) && not (is_string_array value))
      (invalid layer (String.◌++◌ cite " must be an array of non-empty strings"))

-- stringValue
unfoldable pub string_value : Value → Option String
string_value (str s) = if str_eq s "" then none else some s
string_value v = none

-- The non-empty strings of a list.
abbrev pub non_empty : List String → List String
non_empty xs = filter (λ s. not (str_eq s "")) xs

-- stringArrayFrom
unfoldable pub string_array_from : Value → Option (List String)
string_array_from (arr xs) = some (non_empty (strings (items xs)))
string_array_from v = none

-- nonEmptyStringArrayFrom
unfoldable pub non_empty_string_array_from : Value → Option (List String)
unfolding string_array_from
non_empty_string_array_from value = elim (string_array_from value) [
  | none ↦ none
  | some [] ↦ none
  | some (x ∷ xs) ↦ some (x ∷ xs)
]

-- `new Set(xs)` spread back into an array: each string once, where it came first.
unique_from : List String → List String → List String
unique_from seen [] = []
unique_from seen (x ∷ xs) =
    if includes seen x then unique_from seen xs else x ∷ unique_from (x ∷ seen) xs

unfoldable pub unique : List String → List String
unfolding unique_from
unique xs = unique_from [] xs
