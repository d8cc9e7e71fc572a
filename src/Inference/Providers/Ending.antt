-- ===== src/Inference/Providers/Ending.antt =====
-- When the stream of a provider of services/inference/providers ends by an exception.
use belgrade_os.Base.{String, Bool, true, false, ◌&&◌, Option, none, some, List, [], ◌∷◌, or_text}
use belgrade_os.Wire.{Json}
use belgrade_os.World.{Result, ok, raised, Stream, text_chunk, stream_done, finished, broken}
use belgrade_os.Inference.Providers.{End, complete, fails, Chunk, FunctionCall, Delta, DeltaCall}

-- The stream ends by a StreamDone.
abbrev pub ends_well : Stream → Bool
ends_well (text_chunk content rest) = ends_well rest
ends_well (stream_done reason uses rest) = true
ends_well finished = false
ends_well (broken x) = false

abbrev pub is_ok : {A : Type 0} → Result A → Bool
is_ok (ok a) = true
is_ok (raised x) = false

abbrev pub is_complete : End → Bool
is_complete complete = true
is_complete (fails x) = false

abbrev is_some : {A : Type 0} → Option A → Bool
is_some none = false
is_some (some a) = true

-- Every function call has its arguments.
abbrev pub have_args : List FunctionCall → Bool
have_args [] = true
have_args (fc ∷ fcs) = is_some fc.args && have_args fcs

abbrev pub all_given : List Chunk → Bool
all_given [] = true
all_given (chunk ∷ chunks) = have_args chunk.function_calls && all_given chunks

-- The text of the arguments of a call, `{}` where there is none.
abbrev text_or : Option String → String
text_or none = "{}"
text_or (some s) = or_text s "{}"

-- The arguments of every call parse.
abbrev pub do_parse : (String → Result Json) → List DeltaCall → Bool
do_parse loads [] = true
do_parse loads (tc ∷ tcs) = is_ok (loads (text_or tc.arguments)) && do_parse loads tcs

-- Every chunk has a choice, and the calls of its first choice parse.
abbrev pub all_parse : (String → Result Json) → List (List Delta) → Bool
all_parse loads [] = true
all_parse loads ([] ∷ chunks) = false
all_parse loads ((delta ∷ _) ∷ chunks) = do_parse loads delta.tool_calls && all_parse loads chunks
