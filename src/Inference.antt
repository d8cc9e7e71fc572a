-- ===== src/Inference.antt =====
-- services/inference/worker.py: the inference and tool loop for one task, and main.py's consumer.
pub mod Results
mod Emissions
pub mod Trust
pub mod Rounds
mod Tests
pub mod Tools
pub mod Providers
mod Asking
mod Waiting
pub mod Publishing
pub mod Acks
pub mod Main
use belgrade_os.Base.{
  ℕ, zero, suc, String, ◌<>◌, ◌==◌, Bool, true, false, Option, none, some, List, [], ◌∷◌, ◌++◌,
  if◌then◌else◌, is_empty, or_text,
}
use belgrade_os.Base.Text.{Bytes}
use belgrade_os.Wire.{
  ExecutionMode, ThoughtEventType, Json, str, arr, obj, Items, nil, item, end, member, get_member,
  Task, ToolCall, ToolResult, ThoughtEvent,
}
use belgrade_os.World.{
  Exn, Result, ok, raised, Cmd, Stream, text_chunk, stream_done, finished, broken, ToolUse,
  ToolOutput, ChatMessage, text, tool_results, key_error, type_error,
}
use belgrade_os.Prog.{Prog, pure, raise, lift, ask, try_except, try_finally, ◌>>=◌, ◌>>◌}
use belgrade_os.Calls.{xack, redis_get, redis_delete, http_get}
use belgrade_os.Codec.{Codec}
use belgrade_os.Streams.{inbound_stream, tool_results_stream}
use Results.{read_task, read_tool_result, push_tool_call, push_untrusted_tool_call, publish_thought}
use Tools.{tools_of}

abbrev pub consumer_group : String
consumer_group = "inference"

abbrev pub default_tenant : String
default_tenant = "household-vladisavljevic"

abbrev pub unavailable : String
unavailable = "[tool result unavailable]"

abbrev pub cancel_key : String → String
cancel_key task_id = "tasks:cancel:" <> task_id

abbrev pub is_untrusted : ExecutionMode → Bool
is_untrusted ExecutionMode.untrusted = true
is_untrusted _ = false

-- A task that names an app is untrusted, whatever its own field says.
unfoldable pub effective_execution_mode : Task → ExecutionMode
effective_execution_mode task =
    if is_empty task.app_id then task.execution_mode else ExecutionMode.untrusted

abbrev pub thought : Task → ThoughtEventType → String → ThoughtEvent
thought task type content = record {
  task_id = task.task_id;
  user_id = task.user_id;
  type = type;
  content = content;
  trace_id = task.trace_id;
}

-- How a round of the loop ends: the turn is over, or the model is asked again.
pub data Next : Type 0 where
  stop : Next
  again : List ChatMessage → Next

pub data Outcome : Type 0 where
  completed cancelled failed out_of_rounds : Outcome

-- `if done_signal: break`, or the rest of the rounds
abbrev pub go_on : (List ChatMessage → Prog Outcome) → Next → Prog Outcome
go_on rest stop = pure completed
go_on rest (again messages) = rest messages

module _ (c : Codec) (bridge_url : String) (consumer_id : String) where
  unfoldable pub fetch_tools : Prog (List Json)
  fetch_tools =
      try_except (do body ← http_get (bridge_url <> "/v1/tools"); lift (tools_of c body))
        (λ exc. pure [])

  unfoldable pub publish_event : Task → ThoughtEventType → String → Prog Unit
  publish_event task type content =
      publish_thought task.task_id (c.thought_bytes (thought task type content))

  abbrev pub tool_call : Task → ToolUse → ToolCall
  tool_call task use_ = record {
    call_id = use_.call_id;
    task_id = task.task_id;
    tool_name = use_.name;
    input_json = c.dumps use_.input;
    trace_id = task.trace_id;
    user_id = task.user_id;
    tenant_id = or_text task.tenant_id default_tenant;
    execution_mode = effective_execution_mode task;
  }

  -- the choice of the stream
  unfoldable pub push : Task → ToolUse → Prog Unit
  push task use_ =
      let serialised = c.call_bytes (tool_call task use_) in
      if is_untrusted (effective_execution_mode task)
      then push_untrusted_tool_call serialised
      else push_tool_call serialised

  abbrev pub content_of : ToolResult → String
  content_of tr = if tr.success then tr.output_json else or_text tr.error unavailable

  abbrev output : ToolUse → String → ToolOutput
  output use_ content = record { tool_use_id = use_.call_id; content = content }

  unfoldable pub tool_output : ToolUse → Option (String × Bytes) → Prog ToolOutput
  tool_output use_ none = pure (output use_ unavailable)
  tool_output use_ (some (msg_id, result_bytes)) = do
    tr ← lift (c.parse_result result_bytes)
    xack tool_results_stream consumer_group msg_id
    pure (output use_ (content_of tr))

  -- one turn of `for tool_use in event.tool_calls`
  unfoldable pub run_tool : Task → ToolUse → Prog ToolOutput
  run_tool task use_ = do
    push task use_
    found ← read_tool_result consumer_group consumer_id task.task_id
    tool_output use_ found

  unfoldable pub run_tools : Task → List ToolUse → Prog (List ToolOutput)
  run_tools task [] = pure []
  run_tools task (use_ ∷ uses) = do
    first ← run_tool task use_
    rest ← run_tools task uses
    pure (first ∷ rest)

  abbrev pub extended : List ChatMessage → List ToolOutput → List ChatMessage
  extended messages outputs =
      messages
      ++ record { role = "assistant"; content = tool_results [] }
        ∷ record { role = "user"; content = tool_results outputs }
        ∷ []

  -- `async for event in provider.generate(...)`, with its `else`
  unfoldable pub drain : Task → List ChatMessage → Stream → Prog Next
  drain task messages (text_chunk content rest) = do
    publish_event task ThoughtEventType.response_chunk content
    drain task messages rest
  drain task messages (stream_done reason uses rest) =
      if reason == "end_turn"
      then pure stop
      else (do outputs ← run_tools task uses; pure (again (extended messages outputs)))
  drain task messages finished = pure stop
  drain task messages (broken exc) = raise exc

  -- the value of a key, decoded, and its truth
  unfoldable pub is_set : Option Bytes → Prog Bool
  is_set none = pure false
  is_set (some value) = do
    decoded ← lift (c.decode value)
    pure (if is_empty decoded then false else true)

  -- `while True`, with a bound on the rounds
  unfoldable pub rounds_loop : ℕ → Task → List Json → List ChatMessage → Prog Outcome
  rounds_loop zero task tools messages = pure out_of_rounds
  rounds_loop (suc rounds) task tools messages = do
    value ← redis_get (cancel_key task.task_id)
    is_cancelled ← is_set value
    if is_cancelled
        then (do
          redis_delete (cancel_key task.task_id)
          publish_event task ThoughtEventType.error "cancelled"
          pure cancelled)
        else (do
          stream ← ask (Cmd.generate messages tools)
          next ← drain task messages stream
          go_on (rounds_loop rounds task tools) next)

  unfoldable pub finish : Task → Outcome → Prog Outcome
  finish task completed = do publish_event task ThoughtEventType.done ""; pure completed
  finish task cancelled = pure cancelled
  finish task failed = pure failed
  finish task out_of_rounds = pure out_of_rounds

  unfoldable pub process_task : ℕ → Task → Prog Outcome
  process_task rounds task = do
    tools ← fetch_tools
    outcome ←
        try_except
          (rounds_loop rounds task tools
            (record { role = "user"; content = text task.prompt } ∷ []))
          (λ exc. do publish_event task ThoughtEventType.error exc.text; pure failed)
    finish task outcome

  -- the body of main.py's `_consumer_loop`
  unfoldable pub handle_task : ℕ → Option (String × Bytes) → Prog Unit
  handle_task rounds none = pure tt
  handle_task rounds (some (msg_id, task_bytes)) = do
    task ← lift (c.parse_task task_bytes)
    try_finally (try_except (do process_task rounds task; pure tt) (λ exc. pure tt))
        (xack inbound_stream consumer_group msg_id)

  unfoldable pub consume_one : ℕ → Prog Unit
  consume_one rounds = do found ← read_task consumer_group consumer_id; handle_task rounds found

  -- main.py's `_consumer_loop`, for a number of turns
  unfoldable pub consumer_loop : ℕ → ℕ → Prog Unit
  consumer_loop zero rounds = pure tt
  consumer_loop (suc turns) rounds = do consume_one rounds; consumer_loop turns rounds
