-- ===== src/Inference/Providers.antt =====
-- services/inference/providers: how the stream of a model library becomes the stream of the worker.
-- What a library's client yields is a list; it ends by itself or by an exception.
pub mod Turns
pub mod Ending
use belgrade_os.Base.{
  ℕ, String, ◌==◌, Bool, true, false, Option, none, some, List, [], ◌∷◌, ◌++◌, if◌then◌else◌,
  is_empty, or_text,
}
use belgrade_os.Base.Int.{ℤ}
use belgrade_os.Wire.{Json, obj, Members}
use belgrade_os.World.{
  Exn, Result, ok, raised, ToolUse, ToolOutput, Content, text, tool_results, ChatMessage, Stream,
  text_chunk, stream_done, finished, broken, other_error, type_error,
}

-- The end of a library's stream.
pub data End : Type 0 where
  complete : End
  fails : Exn → End

-- anthropic.py: the texts, and the final message
pub data Block : Type 0 where
  tool_use : String → String → Json → Block
  other_block : Block

pub record FinalMessage : Type 0 where
  pub stop_reason : String
  pub content : List Block

unfoldable pub tool_uses : List Block → List ToolUse
tool_uses [] = []
tool_uses (tool_use id name input ∷ blocks) =
    record { call_id = id; name = name; input = input } ∷ tool_uses blocks
tool_uses (other_block ∷ blocks) = tool_uses blocks

-- `"tool_use" if tool_calls else …`
abbrev pub stop_of : List ToolUse → String → String
stop_of [] reason = reason
stop_of (_ ∷ _) reason = "tool_use"

abbrev pub close : List ToolUse → String → Stream
close uses reason = stream_done (stop_of uses reason) uses finished

abbrev anthropic_end : Result FinalMessage → Stream
anthropic_end (raised x) = broken x
anthropic_end (ok final) = close (tool_uses final.content) final.stop_reason

-- A failing text stream ends the generator before `get_final_message`.
unfoldable pub anthropic : List String → Result FinalMessage → Stream
unfolding tool_uses
anthropic [] final = anthropic_end final
anthropic (content ∷ texts) final = text_chunk content (anthropic texts final)

-- gemini.py: a chunk has a text or none, and function calls with an id or none
pub record FunctionCall : Type 0 where
  pub id : Option String
  pub name : String
  pub args : Option Members

pub record Chunk : Type 0 where
  pub text : Option String
  pub function_calls : List FunctionCall

abbrev id_or : Option String → String → String
id_or none fresh = fresh
id_or (some id) fresh = or_text id fresh

-- `fresh` gives the uuid for a call without an id.
abbrev use_of : (FunctionCall → String) → FunctionCall → Json → ToolUse
use_of fresh fc input = record { call_id = id_or fc.id (fresh fc); name = fc.name; input = input }

-- `dict(fc.args)`
abbrev dict_of : Option Members → Result Json
dict_of none = raised (record { fault = type_error; text = "'NoneType' object is not iterable" })
dict_of (some args) = ok (obj args)

abbrev with_use :
    (FunctionCall → String)
    → FunctionCall
    → Result Json
    → Result (List ToolUse)
    → Result (List ToolUse)
with_use fresh fc (raised x) rest = raised x
with_use fresh fc (ok input) (raised x) = raised x
with_use fresh fc (ok input) (ok uses) = ok (use_of fresh fc input ∷ uses)

unfoldable pub uses_of : (FunctionCall → String) → List FunctionCall → Result (List ToolUse)
uses_of fresh [] = ok []
uses_of fresh (fc ∷ fcs) = with_use fresh fc (dict_of fc.args) (uses_of fresh fcs)

-- The calls of a chunk, or the exception that ends the stream.
abbrev go_on_with : Result (List ToolUse) → (List ToolUse → Stream) → Stream
go_on_with (raised x) rest = broken x
go_on_with (ok uses) rest = rest uses

-- `if chunk.text: yield …`
abbrev pub say : Option String → Stream → Stream
say none rest = rest
say (some content) rest = if is_empty content then rest else text_chunk content rest

unfoldable pub gemini : (FunctionCall → String) → List ToolUse → List Chunk → End → Stream
unfolding uses_of
gemini fresh uses [] complete = close uses "end_turn"
gemini fresh uses [] (fails x) = broken x
gemini fresh uses (chunk ∷ chunks) end = say chunk.text (
    go_on_with (uses_of fresh chunk.function_calls)
      (λ more. gemini fresh (uses ++ more) chunks end))

-- ollama.py: each delta has a content or none, and calls whose arguments are texts of JSON
pub record DeltaCall : Type 0 where
  pub id : Option String
  pub name : String
  pub arguments : Option String

pub record Delta : Type 0 where
  pub content : Option String
  pub tool_calls : List DeltaCall

-- `chunk.choices[0]` of no choices
abbrev index_error : Exn
index_error = record { fault = other_error; text = "list index out of range" }

abbrev arguments_of : Option String → String
arguments_of none = "{}"
arguments_of (some s) = or_text s "{}"

module _ (loads : String → Result Json) where
  abbrev with_input : DeltaCall → Result Json → Result (List ToolUse) → Result (List ToolUse)
  with_input tc (raised x) rest = raised x
  with_input tc (ok input) (raised x) = raised x
  with_input tc (ok input) (ok uses) =
      ok (record { call_id = id_or tc.id ""; name = tc.name; input = input } ∷ uses)

  -- `tool_calls.append(…)` for each call of a delta, up to the first whose arguments do not parse
  unfoldable pub parse_calls : List DeltaCall → Result (List ToolUse)
  parse_calls [] = ok []
  parse_calls (tc ∷ tcs) = with_input tc (loads (arguments_of tc.arguments)) (parse_calls tcs)

  -- A chunk is the list of its choices.
  unfoldable pub ollama : List ToolUse → List (List Delta) → End → Stream
  unfolding parse_calls
  ollama uses [] complete = close uses "end_turn"
  ollama uses [] (fails x) = broken x
  ollama uses ([] ∷ chunks) end = broken index_error
  ollama uses ((delta ∷ _) ∷ chunks) end =
      say delta.content
        (go_on_with (parse_calls delta.tool_calls) (λ more. ollama (uses ++ more) chunks end))

-- `_to_gemini_contents`, for the messages that the worker makes: the roles and the parts.
pub data Part : Type 0 where
  from_text : String → Part
  -- name, result
  from_function_response : String → String → Part

pub record GeminiContent : Type 0 where
  pub role : String
  pub parts : List Part

abbrev gemini_role : String → String
gemini_role role = if role == "assistant" then "model" else role

abbrev response_parts : List ToolOutput → List Part
response_parts [] = []
response_parts (o ∷ os) = from_function_response o.tool_use_id o.content ∷ response_parts os

-- `parts or [Part.from_text(text="")]`
abbrev parts_of : Content → List Part
parts_of (text s) = from_text s ∷ []
parts_of (tool_results []) = from_text "" ∷ []
parts_of (tool_results (o ∷ os)) = response_parts (o ∷ os)

unfoldable pub to_gemini_contents : List ChatMessage → List GeminiContent
to_gemini_contents [] = []
to_gemini_contents (m ∷ ms) =
    record { role = gemini_role m.role; parts = parts_of m.content } ∷ to_gemini_contents ms

-- What the stream of a library is asked for; the key `tools` is left out where there are none.
pub record Request (M : Type 0) : Type 0 where
  pub model : String
  pub max_tokens : ℤ
  pub messages : List M
  pub tools : Option (List Json)

abbrev given_tools : List Json → Option (List Json)
given_tools [] = none
given_tools (t ∷ ts) = some (t ∷ ts)

-- AnthropicProvider, and OllamaProvider, which asks for a stream besides
unfoldable pub plain_request : String → ℤ → List ChatMessage → List Json → Request ChatMessage
plain_request model max_tokens messages tools = record {
  model = model;
  max_tokens = max_tokens;
  messages = messages;
  tools = given_tools tools;
}

-- GeminiProvider, whose limit and tools are in its config
unfoldable pub gemini_request : String → ℤ → List ChatMessage → List Json → Request GeminiContent
unfolding to_gemini_contents
gemini_request model max_tokens messages tools = record {
  model = model;
  max_tokens = max_tokens;
  messages = to_gemini_contents messages;
  tools = given_tools tools;
}
