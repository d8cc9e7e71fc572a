-- ===== src/Mcp/Listing.antt =====
-- The tools that the Bridge exposes, as services/mcp_server/main.py reads them.
use Prim.Native.Char.{code}
use belgrade_os.Base.{
  String, ◌<>◌, Bool, false, ◌&&◌, ◌||◌, nat_eq, List, [], ◌∷◌, if◌then◌else◌, is_empty,
}
use belgrade_os.Wire.{Json, null, str, arr, obj, Items, nil, item, end, member}
use belgrade_os.World.{Result, ok, raised, type_error}
use belgrade_os.Results.{◌>>=◌}
use belgrade_os.Codec.{Codec}
use belgrade_os.Access.{Python, index, get_or, elements, hashed, same_key, as_text, is_truthy}

-- `s.rstrip(".")`
unfoldable pub rstrip_dot : String → String
rstrip_dot String.[] = ""
rstrip_dot (String.◌∷◌ c s) =
    let rest = rstrip_dot s in
    if is_empty rest && nat_eq (code c) b'.' then "" else String.◌∷◌ c rest

abbrev loads_value : Codec → Json → Result Json
loads_value c (str s) = c.loads s
loads_value c _ = raised (record { fault = type_error; text = "the JSON object must be str" })

module _ (c : Codec) (py : Python) where
  abbrev hint_of : Json → Result Json
  hint_of t = get_or null "mcp_hint" t

  abbrev with_hint : String → Json → Result String
  with_hint description hint =
      if is_truthy py hint
      then (do h ← as_text hint; ok (rstrip_dot description <> ". " <> rstrip_dot h <> "."))
      else ok (rstrip_dot description <> ".")

  -- one turn of `for t in tools`
  unfoldable pub tool_json : Json → Result Json
  unfolding index get_or as_text rstrip_dot is_truthy
  tool_json t = do
    value ← index "description" t
    plain ← as_text value
    hint ← hint_of t
    description ← with_hint plain hint
    name ← index "name" t
    schema_text ← index "input_schema_json" t
    schema ← loads_value c schema_text
    ok (
        obj (
          member "name" name
            (member "description" (str description) (member "inputSchema" schema end))))

  unfoldable pub tool_items : List Json → Result Items
  unfolding tool_json
  tool_items [] = ok nil
  tool_items (t ∷ ts) = do first ← tool_json t; rest ← tool_items ts; ok (item first rest)

  -- the result of tools/list
  unfoldable pub tools_json : Json → Result Json
  unfolding elements tool_items
  tools_json tools = do
    ts ← elements tools
    items ← tool_items ts
    ok (obj (member "tools" (arr items) end))

  unfoldable pub set_of_names : List Json → Result (List Json)
  unfolding index hashed
  set_of_names [] = ok []
  set_of_names (t ∷ ts) = do
    value ← index "name" t
    name ← hashed value
    names ← set_of_names ts
    ok (name ∷ names)

  -- `{t["name"] for t in mcp_tools}`, with a name that is there twice
  unfoldable pub names_of : Json → Result (List Json)
  unfolding elements set_of_names
  names_of tools = do ts ← elements tools; set_of_names ts

  unfoldable pub elem : Json → List Json → Bool
  unfolding same_key
  elem name [] = false
  elem name (n ∷ names) = same_key py n name || elem name names

  -- `tool_name in exposed_names`
  unfoldable pub is_exposed : Json → List Json → Result Bool
  unfolding hashed elem
  is_exposed name names = do key ← hashed name; ok (elem key names)
