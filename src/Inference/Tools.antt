-- ===== src/Inference/Tools.antt =====
-- `fetch_tools` of services/inference/worker.py: the Bridge's list of tools, in the provider's form.
use belgrade_os.Base.{List, [], ◌∷◌}
use belgrade_os.Wire.{Json, str, arr, obj, Items, nil, item, end, member}
use belgrade_os.World.{Result, ok, raised, type_error}
use belgrade_os.Access.{index}
use belgrade_os.Results.{◌>>=◌}
use belgrade_os.Codec.{Codec}

-- `json.loads` of a value that has to be a text
abbrev loads_value : Codec → Json → Result Json
loads_value c (str s) = c.loads s
loads_value c _ = raised (record { fault = type_error; text = "the JSON object must be str" })

unfoldable pub tool_of : Codec → Json → Result Json
unfolding index
tool_of c t = do
  name ← index "name" t
  description ← index "description" t
  schema_text ← index "input_schema_json" t
  schema ← loads_value c schema_text
  ok (
      obj
        (member "name" name (member "description" description (member "input_schema" schema end))))

unfoldable pub tools_of_items : Codec → Items → Result (List Json)
unfolding tool_of
tools_of_items c nil = ok []
tools_of_items c (item t ts) = do first ← tool_of c t; rest ← tools_of_items c ts; ok (first ∷ rest)

-- What is no list either raises or gives no tool; both end in the empty list.
unfoldable pub tools_of : Codec → Json → Result (List Json)
unfolding tools_of_items
tools_of c (arr ts) = tools_of_items c ts
tools_of c _ = raised (record { fault = type_error; text = "not a list of tools" })
