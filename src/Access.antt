-- ===== src/Access.antt =====
-- How the services take a JSON value apart: `d[key]`, `d.get(key)`, `for x in d`, truth and equality.
use belgrade_os.Base.{
  String, ◌<>◌, ◌==◌, Bool, true, false, not, ◌&&◌, nat_eq, if◌then◌else◌, Option, none, some, List,
  [], ◌∷◌, is_empty,
}
use belgrade_os.Base.Int.{ℤ, pos, negsuc}
use belgrade_os.Wire.{
  Json, null, bool, int, float, str, arr, obj, Items, nil, item, Members, end, member, get_member,
}
use belgrade_os.World.{Exn, Result, ok, raised, key_error, type_error, attribute_error}

-- `t[key]`
unfoldable pub index : String → Json → Result Json
unfolding get_member
index key (obj ms) = elim (get_member key ms) [
  | none ↦ raised (record { fault = key_error; text = "'" <> key <> "'" })
  | some v ↦ ok v
]
index key _ = raised (record { fault = type_error; text = "indices must be integers" })

abbrev pub value_or : Json → Option Json → Json
value_or default none = default
value_or default (some v) = v

-- `t.get(key, default)`
unfoldable pub get_or : Json → String → Json → Result Json
unfolding get_member
get_or default key (obj ms) = ok (value_or default (get_member key ms))
get_or default key _ = raised (record { fault = attribute_error; text = "no attribute 'get'" })

abbrev not_iterable : Exn
not_iterable = record { fault = type_error; text = "object is not iterable" }

-- What of Python is taken as given: whether the text of a float is zero, when two numbers are equal,
-- and how an f-string shows a value.
pub record Python : Type 0 where
  pub is_zero_float : String → Bool
  pub same_number : Json → Json → Bool
  pub format : Json → String

abbrev nonzero : ℤ → Bool
nonzero (pos n) = not (nat_eq n 0)
nonzero (negsuc n) = true

-- `bool(v)`
unfoldable pub is_truthy : Python → Json → Bool
is_truthy py null = false
is_truthy py (bool b) = b
is_truthy py (int i) = nonzero i
is_truthy py (float s) = not (py.is_zero_float s)
is_truthy py (str s) = not (is_empty s)
is_truthy py (arr nil) = false
is_truthy py (arr (item v vs)) = true
is_truthy py (obj end) = false
is_truthy py (obj (member k v ms)) = true

-- `v or {}`
unfoldable pub or_dict : Python → Json → Json
or_dict py v = if is_truthy py v then v else obj end

abbrev item_list : Items → List Json
item_list nil = []
item_list (item v vs) = v ∷ item_list vs

abbrev key_list : Members → List Json
key_list end = []
key_list (member k v ms) = str k ∷ key_list ms

abbrev char_list : String → List Json
char_list String.[] = []
char_list (String.◌∷◌ c s) = str (String.◌∷◌ c String.[]) ∷ char_list s

-- what `for x in v` goes through
unfoldable pub elements : Json → Result (List Json)
elements (arr vs) = ok (item_list vs)
elements (obj ms) = ok (key_list ms)
elements (str s) = ok (char_list s)
elements _ = raised not_iterable

-- a list and a dict go into no set
unfoldable pub hashed : Json → Result Json
hashed (arr vs) = raised (record { fault = type_error; text = "unhashable type: 'list'" })
hashed (obj ms) = raised (record { fault = type_error; text = "unhashable type: 'dict'" })
hashed v = ok v

abbrev is_number : Json → Bool
is_number (bool b) = true
is_number (int i) = true
is_number (float s) = true
is_number _ = false

-- equality of values that go into a set
unfoldable pub same_key : Python → Json → Json → Bool
same_key py (str a) (str b) = a == b
same_key py null null = true
same_key py a b = is_number a && is_number b && py.same_number a b

-- the method of a text, of a value that is to be one
unfoldable pub as_text : Json → Result String
as_text (str s) = ok s
as_text _ = raised (record { fault = attribute_error; text = "no attribute 'rstrip'" })

unfoldable pub is_text : String → Json → Bool
is_text s (str v) = v == s
is_text s _ = false
