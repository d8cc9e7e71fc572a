-- ===== src/Inference/Trust.antt =====
-- Where the tool calls of a task go.
use belgrade_os.Base.{ℕ, zero, suc, String, ◌≡◌, refl, false, List, [], ◌∷◌, is_empty}
use belgrade_os.Wire.{ExecutionMode, ThoughtEventType, Task, ToolCall, Json}
use belgrade_os.World.{Cmd, ToolUse, Stream, ChatMessage}
use belgrade_os.Prog.Emits.{Emits}
use belgrade_os.Calls.Emits.{emits_calls, Emits-xadd}
use belgrade_os.Codec.{Codec}
use belgrade_os.Streams.{untrusted_calls_stream}
use belgrade_os.Inference.Results.{publish_thought, push_untrusted_tool_call}
use belgrade_os.Inference.{
  Outcome, completed, fetch_tools, publish_event, push, drain, rounds_loop, finish, process_task,
  tool_call, effective_execution_mode,
}
use belgrade_os.Inference.Emissions.{drain-Emits, is_set-Emits, go_on-Emits}

-- An entry that is added to a stream, and not with a limit to its length, goes to the sandbox's stream,
-- and holds a call of the task that is marked as untrusted.
abbrev pub Confined : Codec → Task → Cmd → Type 0
Confined c task (Cmd.xadd stream fields) =
    (stream ≡ untrusted_calls_stream)
    × (call : ToolCall) × (fields ≡ ("data", c.call_bytes call) ∷ [])
    × (call.execution_mode ≡ ExecutionMode.untrusted)
    × (call.task_id ≡ task.task_id)
    × (call.user_id ≡ task.user_id)
Confined c task (Cmd.xadd_maxlen stream fields limit) = ⊥
Confined c task _ = Unit

module _ (c : Codec) (bridge_url consumer_id : String) (task : Task)
    (from_app : is_empty task.app_id ≡ false) where
  push-Emits : (u : ToolUse) → Emits (Confined c task) (push c bridge_url consumer_id task u)
  unfolding push push_untrusted_tool_call effective_execution_mode
  push-Emits u = rw from_app (
      Emits-xadd _ _ (
        refl,
        record (tool_call c bridge_url consumer_id task u) {
          execution_mode = ExecutionMode.untrusted;
        },
        refl,
        refl,
        refl,
        refl,
      ))

  publish_event-Emits :
      (type : ThoughtEventType) (content : String)
      → Emits (Confined c task) (publish_event c bridge_url consumer_id task type content)
  unfolding publish_event publish_thought
  publish_event-Emits type content = search emits_calls

  drained :
      (messages : List ChatMessage) (s : Stream)
      → Emits (Confined c task) (drain c bridge_url consumer_id task messages s)
  drained =
      drain-Emits c bridge_url consumer_id task (λ _ _. tt) (λ _ _. tt) push-Emits
        (publish_event-Emits ThoughtEventType.response_chunk)

  rounds_loop-Emits :
      (rounds : ℕ) (tools : List Json) (messages : List ChatMessage)
      → Emits (Confined c task) (rounds_loop c bridge_url consumer_id rounds task tools messages)
  unfolding rounds_loop
  rounds_loop-Emits zero tools messages = search emits_calls
  rounds_loop-Emits (suc rounds) tools messages =
      search
        (
          emits_calls,
          is_set-Emits,
          publish_event-Emits,
          drained,
          go_on-Emits,
          rounds_loop-Emits rounds tools,
        )
        depth 10

  finish-Emits :
      (outcome : Outcome) → Emits (Confined c task) (finish c bridge_url consumer_id task outcome)
  unfolding finish
  finish-Emits completed = search (emits_calls, publish_event-Emits)
  finish-Emits _ = search emits_calls

  -- Of a task that names an app, whatever execution mode its own field claims, and whatever Redis,
  -- the Bridge and the model answer in any number of rounds: nothing is added to the trusted
  -- runner's stream, with or without a limit of its length, and what is added to the sandbox's
  -- stream is a call with the task's id and user that is marked as untrusted.
  pub process_task-Confined :
      (rounds : ℕ) → Emits (Confined c task) (process_task c bridge_url consumer_id rounds task)
  unfolding process_task fetch_tools
  process_task-Confined rounds =
      search (emits_calls, rounds_loop-Emits, publish_event-Emits, finish-Emits) depth 8
