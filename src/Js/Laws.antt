-- ===== src/Js/Laws.antt =====
-- Laws of property reads after writes.
use formspec_web.Common.{
  List, [], ◌∷◌, String, ◌≡◌, refl, true, false, str_eq, eq_iff, arith, if◌then◌else◌,
}
use formspec_web.Js.Defs.{
  items, of_list, undefined, is_undefined, Value, Fields, end, field, get, has, put, spread,
}

pub get-put :
    (fs : Fields) (k j : String) (v : Value)
    → get (put fs k v) j ≡ (if str_eq k j then v else get fs j)
unfolding get put
get-put end k j v = refl
get-put (field i w fs) k j v = ground (arith, eq_iff k j, eq_iff i k, eq_iff i j, get-put fs k j v)

-- A property of `{ ...a, ...b }` is that of `b` where `b` has it, and that of `a` elsewhere, if no
-- property name stands twice in `b`.
abbrev pub HasDistinctKeys : Fields → Type 0
HasDistinctKeys end = Unit
HasDistinctKeys (field k v fs) = (has fs k ≡ false) × HasDistinctKeys fs

pub get-spread :
    (a b : Fields) (j : String)
    → HasDistinctKeys b
    → get (spread a b) j ≡ (if has b j then get b j else get a j)
unfolding get has spread
get-spread a end j h = refl
get-spread a (field k v fs) j (fresh, h) =
    ground (arith, get-spread (put a k v) fs j h, get-put a k j v, eq_iff k j)

pub undefined_of : (v : Value) → is_undefined v ≡ true → v ≡ undefined
undefined_of undefined h = refl
undefined_of _ h = cc

pub items-of_list : (vs : List Value) → items (of_list vs) ≡ vs
items-of_list [] = refl
items-of_list (v ∷ vs) = ground (arith, items-of_list vs)
