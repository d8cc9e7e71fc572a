-- ===== src/Sdk/Reading.antt =====
-- `InferenceAdapter.stream` and `await_result` of sdk/belgrade_sdk/context.py.
use belgrade_os.Base.{
  ℕ, zero, suc, ◌+◌, String, ◌<>◌, ◌==◌, Bool, true, false, Option, none, some, List, [], ◌∷◌,
  if◌then◌else◌, leb,
}
use belgrade_os.Base.Text.{Bytes}
use belgrade_os.Wire.{ThoughtEventType, ThoughtEvent}
use belgrade_os.World.{
  Fault, Result, ok, raised, Cmd, timeout_error, inference_error, inference_timeout_error,
  value_error,
}
use belgrade_os.Prog.{Prog, pure, raise, lift, ask, try_except, try_finally, ◌>>=◌, ◌>>◌}
use belgrade_os.Calls.{subscribe, unsubscribe, close_pubsub, get_message}
use belgrade_os.Codec.{Codec}
use belgrade_os.Sdk.Context.{Context, need_redis}

abbrev pub channel : String → String
channel task_id = "sse:" <> task_id

-- `event.type in (DONE, ERROR)`
abbrev pub is_terminal : ThoughtEventType → Bool
is_terminal ThoughtEventType.done = true
is_terminal ThoughtEventType.error = true
is_terminal _ = false

abbrev is_timeout : Fault → Bool
is_timeout timeout_error = true
is_timeout _ = false

-- `except asyncio.TimeoutError: continue`, as if there were no message
unfoldable pub next_message : Prog (Option Bytes)
next_message = try_except get_message (λ exc. if is_timeout exc.fault then pure none else raise exc)

-- The events of a run of the loop; `none` is a run that is cut off after `rounds` turns.
abbrev pub Events : Type 0
Events = Option (List ThoughtEvent)

abbrev yielded : ThoughtEvent → Events → Events
yielded event none = none
yielded event (some events) = some (event ∷ events)

abbrev pub is_error : ThoughtEventType → Bool
is_error ThoughtEventType.error = true
is_error _ = false

-- the content of the first ERROR event
unfoldable pub first_error : List ThoughtEvent → Option String
first_error [] = none
first_error (event ∷ events) =
    let rest = first_error events in if is_error event.type then some event.content else rest

abbrev is_chunk : ThoughtEventType → Bool
is_chunk ThoughtEventType.response_chunk = true
is_chunk _ = false

abbrev is_tool_use : ThoughtEventType → Bool
is_tool_use ThoughtEventType.tool_use = true
is_tool_use _ = false

unfoldable pub text_of : List ThoughtEvent → String
text_of [] = ""
text_of (event ∷ events) =
    let rest = text_of events in if is_chunk event.type then event.content <> rest else rest

unfoldable pub tool_calls_of : List ThoughtEvent → List String
tool_calls_of [] = []
tool_calls_of (event ∷ events) =
    let rest = tool_calls_of events in if is_tool_use event.type then event.content ∷ rest else rest

abbrev trace_of : List ThoughtEvent → String
trace_of [] = ""
trace_of (event ∷ _) = event.trace_id

-- The three modes of `await_result`.
pub data Answer : Type 0 where
  text : String → Answer
  full : List ThoughtEvent → Answer
  summary : String → List String → String → Answer

unfoldable pub answer : String → List ThoughtEvent → Result Answer
answer mode events =
    if mode == "text"
    then ok (text (text_of events))
    else if mode == "full"
    then ok (full events)
    else if mode == "summary"
    then ok (summary (text_of events) (tool_calls_of events) (trace_of events))
    else raised (record { fault = value_error; text = "Unknown mode" })

abbrev answer_unless : Option String → String → List ThoughtEvent → Result Answer
answer_unless none mode events = answer mode events
answer_unless (some error) mode events = raised (record { fault = inference_error; text = error })

unfoldable pub result_of : String → List ThoughtEvent → Result Answer
result_of mode events = answer_unless (first_error events) mode events

module _ (c : Codec) where
  abbrev timed_out : {A : Type 0} → Prog A
  timed_out = raise (record { fault = inference_timeout_error; text = "No terminal event" })

  -- What follows `message = …`; `rest` is the turns after this one.
  unfoldable pub handle_message : Prog Events → Option Bytes → Prog Events
  handle_message rest none = rest
  handle_message rest (some payload) = do
    event ← lift (c.parse_thought payload)
    if is_terminal event.type
        then pure (some (event ∷ []))
        else (do events ← rest; pure (yielded event events))

  -- `while True` under a bound on the turns, with the clock of the event loop in nanoseconds
  unfoldable pub stream_loop : ℕ → ℕ → Prog Events
  stream_loop zero deadline = pure none
  stream_loop (suc rounds) deadline = do
    now ← ask Cmd.monotonic_ns
    if leb deadline now
        then timed_out
        else (do message ← next_message; handle_message (stream_loop rounds deadline) message)

  unfoldable pub stream_body : ℕ → ℕ → Prog Events
  stream_body rounds timeout_ns = do
    now ← ask Cmd.monotonic_ns
    stream_loop rounds (now + timeout_ns)

  -- InferenceAdapter.stream, read to its end
  unfoldable pub stream : ℕ → Context → String → ℕ → Prog Events
  stream rounds ctx task_id timeout_ns = do
    need_redis ctx
    subscribe (channel task_id)
    try_finally (stream_body rounds timeout_ns) (unsubscribe (channel task_id) >> close_pubsub)

  abbrev finished : String → Events → Prog (Option Answer)
  finished mode none = pure none
  finished mode (some events) = do found ← lift (result_of mode events); pure (some found)

  unfoldable pub await_result : ℕ → Context → String → String → ℕ → Prog (Option Answer)
  await_result rounds ctx task_id mode timeout_ns = do
    events ← stream rounds ctx task_id timeout_ns
    finished mode events
