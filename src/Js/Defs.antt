-- ===== src/Js/Defs.antt =====
-- Values, reads and writes of properties, and the tests by `typeof`, `===` and `Array.isArray`.
-- A number other than an integer and NaN (a fraction, an infinity) is kept as the bits of its double,
-- and -0 as 0.
-- A property that an object lacks reads as `undefined`; no name read here is one of Object.prototype.
use Prim.Native.Char.{code}
use formspec_web.Common.{
  ℕ, zero, String, Bool, true, false, not, List, [], ◌∷◌, str_eq, ◌==◌, if◌then◌else◌,
}
use formspec_web.Js.Int.{ℤ, pos}

mutual
  pub data Value : Type 0 where
    undefined null nan : Value
    bool : Bool → Value
    int : ℤ → Value
    fraction : ℕ → Value
    str : String → Value
    obj : Fields → Value
    arr : Items → Value

  pub data Fields : Type 0 where
    end : Fields
    field : String → Value → Fields → Fields

  pub data Items : Type 0 where
    nil : Items
    cons : Value → Items → Items

abbrev pub items : Items → List Value
items nil = []
items (cons v vs) = v ∷ items vs

abbrev pub of_list : List Value → Items
of_list [] = nil
of_list (v ∷ vs) = cons v (of_list vs)

-- `o[key]` of an object `o`
unfoldable pub get : Fields → String → Value
get end key = undefined
get (field k v fs) key = if str_eq k key then v else get fs key

-- `key in o`
unfoldable pub has : Fields → String → Bool
has end key = false
has (field k v fs) key = if str_eq k key then true else has fs key

-- `{ ...o, [key]: v }`: a property that is there keeps its place, a new one comes last.
unfoldable pub put : Fields → String → Value → Fields
put end key v = field key v end
put (field k w fs) key v = if str_eq k key then field k v fs else field k w (put fs key v)

-- `{ ...a, ...b }`: every own property of `b` is written over `a`, one whose value is undefined too.
unfoldable pub spread : Fields → Fields → Fields
spread a end = a
spread a (field k v fs) = spread (put a k v) fs

-- `v === undefined`
abbrev pub is_undefined : Value → Bool
is_undefined undefined = true
is_undefined v = false

-- `typeof v === 'object' && v !== null && !Array.isArray(v)`
abbrev pub is_plain_object : Value → Bool
is_plain_object (obj fs) = true
is_plain_object v = false

-- `typeof v === 'object' && v !== null`
abbrev pub is_object : Value → Bool
is_object (obj fs) = true
is_object (arr xs) = true
is_object v = false

-- `Array.isArray(v)`
abbrev pub is_array : Value → Bool
is_array (arr xs) = true
is_array v = false

-- `typeof v === 'boolean'`
abbrev pub is_boolean : Value → Bool
is_boolean (bool b) = true
is_boolean v = false

-- `typeof v === 'string'`
abbrev pub is_string : Value → Bool
is_string (str s) = true
is_string v = false

-- `typeof v === 'string' && v.length > 0`
abbrev pub is_non_empty_string : Value → Bool
is_non_empty_string (str s) = not (str_eq s "")
is_non_empty_string v = false

-- `v === s`
abbrev pub is_str : Value → String → Bool
is_str (str t) s = str_eq t s
is_str v s = false

-- `v === true`
abbrev pub is_true : Value → Bool
is_true (bool b) = b
is_true v = false

-- `v === false`
abbrev pub is_false : Value → Bool
is_false (bool b) = not b
is_false v = false

-- `v?.[key]`, and `v[key]` where `v` is no null or undefined: only an object has such properties.
abbrev pub prop : Value → String → Value
prop (obj fs) key = get fs key
prop v key = undefined

-- The properties of a value that is spread, or taken for an object.
abbrev pub fields_of : Value → Fields
fields_of (obj fs) = fs
fields_of v = end

-- The elements of a value that is an array, or `[]`.
abbrev pub elements : Value → List Value
elements (arr xs) = items xs
elements v = []

-- `a ?? b`
abbrev pub or_value : Value → Value → Value
or_value undefined b = b
or_value null b = b
or_value a b = a

-- The strings among the values.
abbrev pub strings : List Value → List String
strings [] = []
strings (str s ∷ vs) = s ∷ strings vs
strings (v ∷ vs) = strings vs

-- `s.startsWith('/')`
abbrev pub starts_with_slash : String → Bool
starts_with_slash String.[] = false
starts_with_slash (String.◌∷◌ c s) = code c == b'/'

-- `v` as a condition
abbrev pub truthy : Value → Bool
truthy undefined = false
truthy null = false
truthy nan = false
truthy (bool b) = b
truthy (int (pos zero)) = false
truthy (str s) = not (str_eq s "")
truthy v = true

-- `v === null`
abbrev pub is_null : Value → Bool
is_null null = true
is_null v = false

-- The elements of a string that is iterated over: its characters.
abbrev pub characters : String → Items
characters String.[] = nil
characters (String.◌∷◌ c s) = cons (str (String.◌∷◌ c String.[])) (characters s)
