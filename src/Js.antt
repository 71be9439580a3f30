-- ===== src/Js.antt =====
-- JavaScript values as the program meets them after `JSON.parse` and in forms, and the parts of
-- the language and its library that the program uses on them. `Text` is for strings, `Convert`
-- for conversions, `Host` for what the browser or the server supplies.
pub mod Text
pub mod Laws
pub mod Host
pub mod Convert
pub mod Effect
use relay_workflow_automatio.Prelude.{
  ℕ, ◌*◌, ◌%◌, ◌^◌, Bool, true, false, not, ◌&&◌, ◌||◌, String, Option, none, some, List, [], ◌∷◌,
  ◌==◌, ltb, eqb, if◌then◌else◌,
}

-- A number: NaN, an infinity, or the value (-1)^negative * mantissa / 2^scale. Every finite double
-- has this form.
pub data Num : Type 0 where
  nan : Num
  infinite : Bool → Num
  finite : Bool → ℕ → ℕ → Num

mutual
  pub data Value : Type 0 where
    undefined null : Value
    bool : Bool → Value
    num : Num → Value
    str : String → Value
    arr : Items → Value
    obj : Fields → Value

  pub data Items : Type 0 where
    cons : Value → Items → Items
    nil : Items

  -- An object's own properties, in order; a name occurs once.
  pub data Fields : Type 0 where
    field : String → Value → Fields → Fields
    end : Fields

abbrev pub integer : ℕ → Num
integer n = finite false n 0

-- `Number.isInteger` and `Number.isFinite`
unfoldable pub is_integer : Num → Bool
is_integer (finite s m k) = eqb (m % 2 ^ k) 0
is_integer nan = false
is_integer (infinite s) = false

unfoldable pub is_finite : Num → Bool
is_finite (finite s m k) = true
is_finite nan = false
is_finite (infinite s) = false

-- `x < n` and `x > n` for a natural number n
unfoldable pub num_lt : Num → ℕ → Bool
num_lt nan n = false
num_lt (infinite negative) n = negative
num_lt (finite false m k) n = ltb m (n * 2 ^ k)
num_lt (finite true m k) n = not (eqb m 0 && eqb n 0)

unfoldable pub num_gt : Num → ℕ → Bool
num_gt nan n = false
num_gt (infinite negative) n = not negative
num_gt (finite false m k) n = ltb (n * 2 ^ k) m
num_gt (finite true m k) n = false

-- `a === b` on numbers
unfoldable pub num_eq : Num → Num → Bool
num_eq (finite s m k) (finite t n j) = eqb (m * 2 ^ j) (n * 2 ^ k) && (eqb m 0 || same s t)
  where
    same : Bool → Bool → Bool
    same true b = b
    same false b = not b
num_eq (infinite true) (infinite t) = t
num_eq (infinite false) (infinite t) = not t
num_eq _ _ = false

-- `a === b`. Two objects, or two arrays, of separately parsed JSON are never the same object.
unfoldable pub strict_eq : Value → Value → Bool
strict_eq undefined undefined = true
strict_eq null null = true
strict_eq (bool true) (bool b) = b
strict_eq (bool false) (bool b) = not b
strict_eq (num a) (num b) = num_eq a b
strict_eq (str s) (str t) = s == t
strict_eq _ _ = false

-- `value ? … : …`
unfoldable pub truthy : Value → Bool
truthy undefined = false
truthy null = false
truthy (bool b) = b
truthy (num nan) = false
truthy (num (infinite s)) = true
truthy (num (finite s m k)) = not (eqb m 0)
truthy (str s) = not (s == "")
truthy (arr xs) = true
truthy (obj fs) = true

-- `a ?? b`
abbrev pub or_nullish : Value → Value → Value
or_nullish undefined b = b
or_nullish null b = b
or_nullish a b = a

-- `a || b`
abbrev pub or_else : Value → Value → Value
or_else a b = if truthy a then a else b

abbrev pub is_undefined : Value → Bool
is_undefined undefined = true
is_undefined _ = false

abbrev pub is_nullish : Value → Bool
is_nullish undefined = true
is_nullish null = true
is_nullish _ = false

-- `typeof v === "string"`, `Array.isArray(v)`, and `v && typeof v === "object" && !Array.isArray(v)`
abbrev pub is_string : Value → Bool
is_string (str s) = true
is_string _ = false

abbrev pub is_array : Value → Bool
is_array (arr xs) = true
is_array _ = false

abbrev pub is_record : Value → Bool
is_record (obj fs) = true
is_record _ = false

-- `v === "s"`
unfoldable pub is_text : Value → String → Bool
is_text (str t) s = t == s
is_text _ s = false

-- `fs[key]`, and `Object.hasOwn(fs, key)`
unfoldable pub get : Fields → String → Value
get end key = undefined
get (field k v fs) key = if k == key then v else get fs key

unfoldable pub has_own : Fields → String → Bool
has_own end key = false
has_own (field k v fs) key = k == key || has_own fs key

-- `v?.key`
unfoldable pub prop : Value → String → Value
unfolding get
prop (obj fs) key = get fs key
prop _ key = undefined

-- `fs[key] = v`, and `delete fs[key]`
unfoldable pub put : Fields → String → Value → Fields
put end key v = field key v end
put (field k w fs) key v = if k == key then field k v fs else field k w (put fs key v)

unfoldable pub remove : Fields → String → Fields
remove end key = end
remove (field k w fs) key = let rest = remove fs key in if k == key then rest else field k w rest

-- `Object.keys`
unfoldable pub keys : Fields → List String
keys end = []
keys (field k v fs) = k ∷ keys fs

unfoldable pub items : Items → List Value
items nil = []
items (cons v vs) = v ∷ items vs

-- `vs.map(f)`
abbrev pub map_items : (Value → Value) → Items → Items
map_items f nil = nil
map_items f (cons v vs) = cons (f v) (map_items f vs)

-- the entries whose name passes the test
unfoldable pub filter_fields : (String → Bool) → Fields → Fields
filter_fields p end = end
filter_fields p (field k v fs) =
    let rest = filter_fields p fs in if p k then field k v rest else rest

-- `{ ...base, ...changes }`
unfoldable pub spread : Fields → Fields → Fields
unfolding put
spread base end = base
spread base (field k v changes) = spread (put base k v) changes

abbrev find_item : (Value → Bool) → Items → Value
find_item p nil = undefined
find_item p (cons v vs) = if p v then v else find_item p vs

-- `v.find(p)` on an array; `none` if `v` is no array and has no such method
unfoldable pub find_in : (Value → Bool) → Value → Option Value
find_in p (arr xs) = some (find_item p xs)
find_in p _ = none

-- the properties that `{ ...v }` copies
abbrev pub fields_of : Value → Fields
fields_of (obj fs) = fs
fields_of _ = end
