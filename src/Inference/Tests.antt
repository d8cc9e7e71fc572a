-- ===== src/Inference/Tests.antt =====
-- The inference worker at concrete inputs.
use belgrade_os.Base.{
  String, List, ◌==◌, false, none, some, inr, ap, subst, ◌≡◌, ◌≢◌, refl, [], ◌∷◌, arith,
}
use belgrade_os.Base.Text.{encode}
use belgrade_os.World
use belgrade_os.World.{
  Result, ok, raised, Cmd, Stream, stream_done, finished, ChatMessage, ToolOutput,
}
use belgrade_os.Prog.{History, Env}
use belgrade_os.Prog.Emits.{Emits}
use belgrade_os.Calls.{running}
use belgrade_os.Delivery.{commands}
use belgrade_os.Sample.{bad, codec, env, task}
use belgrade_os.Inference.{
  extended, again, run_tools, run_tool, push, effective_execution_mode, tool_output, process_task,
  out_of_rounds, fetch_tools, rounds_loop, is_set, drain, publish_event, finish, Outcome,
}
use belgrade_os.Inference.Tools.{tools_of}
use belgrade_os.Inference.Results.{
  publish_thought, push_untrusted_tool_call, read_tool_result, read_matching, match_entry,
}
use belgrade_os.Base.Int.{pos}
use belgrade_os.Wire.{obj, end}
use belgrade_os.Inference.Providers.{
  gemini_request, to_gemini_contents, from_text, from_function_response, FinalMessage, other_block,
  Chunk, anthropic, gemini, ollama, complete,
}
use belgrade_os.Inference.Providers.Turns.{IsTurn, EndsTurn, providers-IsTurn}
use belgrade_os.Inference.Asking.{drain-again}
use belgrade_os.Inference.Waiting.{EndsWell, read_tool_result-EndsWell}
use belgrade_os.Inference.Trust.{Confined, process_task-Confined}
use belgrade_os.Inference.Rounds.{EndsWithin, process_task-ends}

abbrev run : Result {0} Outcome × History
run = process_task codec "http://b" "i1" 1 task env []

-- One round: the tools are asked for and are no list, the task is not cancelled, the model says
-- hello and ends its turn.
run_commands :
    commands run.1
    ≡ Cmd.publish "sse:t1" (encode "")
      ∷ Cmd.publish "sse:t1" (encode "hello")
      ∷ Cmd.generate (record { role = "user"; content = World.text "hi" } ∷ []) []
      ∷ Cmd.redis_get "tasks:cancel:t1"
      ∷ Cmd.http_get "http://b/v1/tools"
      ∷ []
unfolding process_task fetch_tools tools_of rounds_loop is_set drain publish_event finish
    publish_thought running
run_commands = refl

process_task-Confined_example :
    Emits (Confined codec task) (process_task codec "http://b" "i1" 3 task)
process_task-Confined_example = process_task-Confined codec "http://b" "i1" task refl 3

env-EndsWithin : EndsWithin 0 env
env-EndsWithin t messages tools le = refl

process_task-ends_example : run.0 ≢ ok out_of_rounds
process_task-ends_example =
    process_task-ends codec "http://b" "i1" task 0 env env-EndsWithin 1 [] (omega arith)
      (omega arith)

-- Turns of the three libraries: one without calls, one with a call, and one whose chunk has no choice.
abbrev final : FinalMessage
final = record { stop_reason = "max_tokens"; content = other_block ∷ [] }

abbrev gemini_chunks : List Chunk
gemini_chunks =
    record {
      text = some "hm";
      function_calls = record { id = none; name = "shopping:add_item"; args = some end } ∷ [];
    }
    ∷ []

abbrev IsText : String → Type 0
IsText reason = (reason == "end_turn") ≡ false

abbrev reason_of : Result FinalMessage → String
reason_of (ok m) = m.stop_reason
reason_of (raised x) = ""

final-IsText : (m : FinalMessage) → ok final ≡ ok m → IsText m.stop_reason
final-IsText m e = subst IsText (ap reason_of e) refl

providers-IsTurn_example :
    IsTurn IsText (anthropic ("hm" ∷ []) (ok final))
    × IsTurn EndsTurn (gemini (λ _. "id") [] gemini_chunks complete)
    × IsTurn EndsTurn (ollama (λ _. raised bad) [] ([] ∷ []) complete)
providers-IsTurn_example =
    providers-IsTurn IsText ("hm" ∷ []) (ok final) final-IsText (λ _. "id") gemini_chunks
      (λ _. raised bad) ([] ∷ []) complete

abbrev asking : Stream
asking =
    stream_done "tool_use"
      (record { call_id = "c1"; name = "shopping:add_item"; input = obj end } ∷ []) finished

asking-IsTurn : IsTurn EndsTurn asking
asking-IsTurn = inr (λ e. cc, refl)

abbrev asked_again : List ChatMessage
asked_again =
    extended codec "http://b" "i1" []
      (record { tool_use_id = "c1"; content = "[tool result unavailable]" } ∷ [])

silent : Env
silent t (Cmd.xreadgroup s g k) = ok none
silent t cmd = env t cmd

drained : (drain codec "http://b" "i1" task [] asking silent []).0 ≡ ok (again asked_again)
unfolding silent drain run_tools run_tool push effective_execution_mode push_untrusted_tool_call
    read_tool_result read_matching match_entry tool_output running
drained = refl

drain-again_example :
    (outputs : List ToolOutput) × (outputs ≢ [])
    × (asked_again ≡ extended codec "http://b" "i1" [] outputs)
drain-again_example =
    drain-again codec "http://b" "i1" task [] asking asking-IsTurn silent [] asked_again drained

read_tool_result-EndsWell_example :
    EndsWell 10 "inference" "i1" "t1" [] (read_tool_result "inference" "i1" "t1" env [])
read_tool_result-EndsWell_example = read_tool_result-EndsWell "inference" "i1" "t1" env []

-- The model's turn is an empty text, and the results of tools are parts of the request.
asked_gemini :
    gemini_request "m"
      (pos 8)
      (extended codec "http://b" "i1" [] (record { tool_use_id = "c1"; content = "{}" } ∷ []))
      []
    ≡ record {
      model = "m";
      max_tokens = pos 8;
      messages =
          record { role = "model"; parts = from_text "" ∷ [] }
          ∷ record { role = "user"; parts = from_function_response "c1" "{}" ∷ [] }
          ∷ [];
      tools = none;
    }
unfolding gemini_request to_gemini_contents
asked_gemini = refl
