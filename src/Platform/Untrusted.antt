-- ===== src/Platform/Untrusted.antt =====
-- `process_untrusted_call` and `_untrusted_consumer_loop` of services/platform_controller/main.py.
pub mod Attempts
pub mod Answers
mod Tests
use Prim.Native.Char.{code}
use belgrade_os.Base.{
  ℕ, zero, suc, String, ◌<>◌, Bool, true, false, Option, none, some, [], ◌∷◌, if◌then◌else◌, nat_eq,
}
use belgrade_os.Base.Dict.{lookup}
use belgrade_os.Base.Int.{ℤ, pos, sub_ℕ}
use belgrade_os.Base.Text.{Bytes, encode}
use belgrade_os.Wire.{Json, obj, end, member, str, ToolCall, ToolResult}
use belgrade_os.World.{
  Exn, Fault, timeout_error, output_validation_error, runtime_error, connection_error, Message, Cmd,
}
use belgrade_os.Prog.{Prog, pure, raise, lift, ask, try_except, ◌>>=◌, ◌>>◌}
use belgrade_os.Calls.{xreadgroup, xack, xadd}
use belgrade_os.Codec.{Codec}
use belgrade_os.Streams.{tool_results_stream, untrusted_calls_stream}
use belgrade_os.Startup.{join_group}
use belgrade_os.Platform.AppId.{is_app_id}
use belgrade_os.Platform.Supervisor.{is_value_error}
use belgrade_os.Platform.Ephemeral.{Sandbox, run}

abbrev pub consumer_group : String
consumer_group = "untrusted-runners"

-- `name.split(":")[0] if ":" in name else name`
unfoldable pub app_of : String → String
app_of String.[] = ""
app_of (String.◌∷◌ c s) =
    let rest = app_of s in if nat_eq (code c) b':' then "" else String.◌∷◌ c rest

abbrev pub answer : ToolCall → Bool → String → String → ToolResult
answer call success output_json error = record {
  call_id = call.call_id;
  task_id = call.task_id;
  success = success;
  output_json = output_json;
  error = error;
  duration_ms = pos 0;
  user_id = call.user_id;
  tenant_id = call.tenant_id;
}

-- The `except` clauses: the error of the result, or the exception goes on.
abbrev error_of : Exn → Option String
error_of exc = elim (exc.fault) [
  | timeout_error ↦ some "execution timeout after 30s"
  | output_validation_error ↦ some exc.text
  | runtime_error ↦ some exc.text
  | fault ↦ if is_value_error fault then some exc.text else none
]

abbrev failed_with : ToolCall → Exn → Option String → Prog ToolResult
failed_with call exc none = raise exc
failed_with call exc (some error) = pure (answer call false "" error)

module _ (c : Codec) (sandbox : Sandbox) where
  abbrev pub input_of : ToolCall → Json
  input_of call =
      obj (member "tool_name" (str call.tool_name) (member "input_json" (str call.input_json) end))

  unfoldable pub attempt : ToolCall → Prog ToolResult
  attempt call =
      try_except
        (do
          output ← run sandbox call.task_id (app_of call.tool_name) (input_of call)
          pure (answer call true (c.dumps output) ""))
        (λ exc. failed_with call exc (error_of exc))

  unfoldable pub add_result : ToolCall → ToolResult → Prog Unit
  add_result call result =
      xadd tool_results_stream
        (("data", c.result_bytes result) ∷ ("task_id", encode call.task_id) ∷ [])

  unfoldable pub answer_call : ToolCall → ℕ → Prog Unit
  answer_call call start_ms = do
    result ← attempt call
    end_ms ← ask Cmd.time_ms
    add_result call (record result { duration_ms = sub_ℕ end_ms start_ms })

  abbrev pub invalid_app : ToolCall → String
  invalid_app call =
      "invalid app_id derived from tool_name: " <> sandbox.repr (app_of call.tool_name)

  unfoldable pub process_call : ToolCall → ℕ → Prog Unit
  process_call call start_ms =
      if is_app_id (app_of call.tool_name)
      then answer_call call start_ms
      else add_result call (answer call false "" (invalid_app call))

  unfoldable pub process_untrusted_call : Bytes → Prog Unit
  process_untrusted_call call_bytes = do
    call ← lift (c.parse_call call_bytes)
    start_ms ← ask Cmd.time_ms
    process_call call start_ms

  -- the body of `for msg_id, fields in messages`
  unfoldable pub handle_data : String → Option Bytes → Prog Unit
  handle_data msg_id none = xack untrusted_calls_stream consumer_group msg_id
  handle_data msg_id (some call_bytes) =
      try_except
        (do process_untrusted_call call_bytes; xack untrusted_calls_stream consumer_group msg_id)
        (λ exc. pure tt)

  unfoldable pub handle_message : Option Message → Prog Unit
  unfolding lookup
  handle_message none = pure tt
  handle_message (some m) = handle_data m.id (lookup "data" m.fields)

  abbrev backoff : Fault → ℕ
  backoff connection_error = 5
  backoff _ = 1

  -- one turn of the loop
  unfoldable pub consume_one : Prog Unit
  consume_one =
      try_except
        (do
          found ← xreadgroup untrusted_calls_stream consumer_group "platform-controller"
          handle_message found)
        (λ exc. ask (Cmd.sleep (backoff exc.fault)))

  unfoldable pub consumer_loop : ℕ → Prog Unit
  consumer_loop zero = pure tt
  consumer_loop (suc rounds) = do consume_one; consumer_loop rounds

  -- _untrusted_consumer_loop, for a number of turns
  unfoldable pub serve : ℕ → Prog Unit
  serve rounds = do join_group untrusted_calls_stream consumer_group; consumer_loop rounds
