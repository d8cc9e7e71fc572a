-- ===== src/Inference/Emissions.antt =====
-- What a round of the loop asks of the outside, for any property of calls that holds of the reads
-- and the acknowledgements of tool results, of the pushes and of the published chunks.
use belgrade_os.Base.{ℕ, zero, suc, String, Option, none, some, List, [], ◌∷◌}
use belgrade_os.Base.Text.{Bytes}
use belgrade_os.Wire.{ThoughtEventType, Task}
use belgrade_os.World.{
  Cmd, Message, ToolUse, Stream, text_chunk, stream_done, finished, broken, ChatMessage,
}
use belgrade_os.Prog.{Prog}
use belgrade_os.Prog.Emits.{Emits, Emits-bind, Emits-pure}
use belgrade_os.Calls.Emits.{emits_calls, Emits-xreadgroup}
use belgrade_os.Codec.{Codec}
use belgrade_os.Streams.{tool_results_stream}
use belgrade_os.Inference.Results.{data_of, match_entry, read_matching, read_tool_result}
use belgrade_os.Inference.{
  Next, stop, again, go_on, Outcome, publish_event, push, tool_output, run_tool, run_tools, drain,
  is_set,
}

module _ (c : Codec) (bridge_url consumer_id : String) (task : Task) {P : Cmd → Type 0}
    (reads : (group consumer : String) → P (Cmd.xreadgroup tool_results_stream group consumer))
    (acks : (group id : String) → P (Cmd.xack tool_results_stream group id))
    (pushes : (u : ToolUse) → Emits P (push c bridge_url consumer_id task u))
    (chunks : (content : String)
      → Emits P (
          publish_event c bridge_url consumer_id task ThoughtEventType.response_chunk
            content)) where
  data_of-Emits : (m : Message) → Emits P (data_of m)
  unfolding data_of
  data_of-Emits m = search emits_calls

  match_entry-Emits :
      (group id : String) (rest : Prog (Option (String × Bytes))) (found : Option Message)
      → Emits P rest
      → Emits P (match_entry group id rest found)
  unfolding match_entry
  match_entry-Emits group id rest none k = search emits_calls
  match_entry-Emits group id rest (some m) k = search (emits_calls, data_of-Emits, acks)

  read_matching-Emits :
      (turns : ℕ) (group consumer id : String) → Emits P (read_matching turns group consumer id)
  unfolding read_matching
  read_matching-Emits zero group consumer id = search emits_calls
  read_matching-Emits (suc turns) group consumer id =
      Emits-bind _ _ (Emits-xreadgroup _ _ _ (reads _ _))
        (λ found. match_entry-Emits group id _ found (read_matching-Emits turns group consumer id))

  tool_output-Emits :
      (u : ToolUse) (found : Option (String × Bytes))
      → Emits P (tool_output c bridge_url consumer_id u found)
  unfolding tool_output
  tool_output-Emits u none = search emits_calls
  tool_output-Emits u (some (id, bytes)) = search (emits_calls, acks)

  run_tool-Emits : (u : ToolUse) → Emits P (run_tool c bridge_url consumer_id task u)
  unfolding run_tool read_tool_result
  run_tool-Emits u = search (emits_calls, pushes, read_matching-Emits, tool_output-Emits)

  pub run_tools-Emits :
      (uses : List ToolUse) → Emits P (run_tools c bridge_url consumer_id task uses)
  unfolding run_tools
  run_tools-Emits [] = search emits_calls
  run_tools-Emits (u ∷ uses) =
      Emits-bind _ _ (run_tool-Emits u)
        (λ _. Emits-bind _ _ (run_tools-Emits uses) (λ _. Emits-pure _))

  pub drain-Emits :
      (messages : List ChatMessage) (s : Stream)
      → Emits P (drain c bridge_url consumer_id task messages s)
  unfolding drain
  drain-Emits messages (text_chunk content rest) =
      Emits-bind _ _ (chunks content) (λ _. drain-Emits messages rest)
  drain-Emits messages (stream_done reason uses rest) = search (emits_calls, run_tools-Emits)
  drain-Emits messages finished = search emits_calls
  drain-Emits messages (broken exc) = search emits_calls

module _ (c : Codec) (bridge_url consumer_id : String) {P : Cmd → Type 0} where
  pub is_set-Emits : (value : Option Bytes) → Emits P (is_set c bridge_url consumer_id value)
  unfolding is_set
  is_set-Emits none = search emits_calls
  is_set-Emits (some value) = search emits_calls

module _ {P : Cmd → Type 0} where
  pub go_on-Emits :
      (rest : List ChatMessage → Prog Outcome) (next : Next)
      → ((messages : List ChatMessage) → Emits P (rest messages))
      → Emits P (go_on rest next)
  go_on-Emits rest stop k = search emits_calls
  go_on-Emits rest (again messages) k = k messages
