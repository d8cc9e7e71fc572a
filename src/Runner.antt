-- ===== src/Runner.antt =====
-- services/runner: a tool call is leased, executed by the Bridge and answered on the result stream.
mod Answer
pub mod Lease
pub mod Acks
pub mod Main
mod Tests
unfoldable pub use Answer.{result_of}
use belgrade_os.Base.{ℕ, zero, suc, String, ◌<>◌, false, Option, none, some, [], ◌∷◌, if◌then◌else◌}
use belgrade_os.Base.Dict.{lookup}
use belgrade_os.Base.Int.{ℤ, pos, ◌+ℤ◌, ◌*ℤ◌, leb_ℤ, floor_div, sub_ℕ}
use belgrade_os.Base.Text.{Bytes, encode}
use belgrade_os.Wire.{Json, str, obj, end, member, ToolCall, ToolResult, WorkerLease}
use belgrade_os.World.{Exn, Message, Cmd, value_error}
use belgrade_os.Prog.{Prog, pure, raise, lift, ask, try_except, try_finally, ◌>>=◌, ◌>>◌}
use belgrade_os.Calls.{xreadgroup, xack, xadd, redis_set, redis_delete, http_post}
use belgrade_os.Codec.{Codec}
use belgrade_os.Streams.{tool_calls_stream, tool_results_stream}

abbrev pub consumer_group : String
consumer_group = "tool-runners"

abbrev pub lease_key : String → String
lease_key worker_id = "lease:" <> worker_id

-- RedisClient.read_tool_call
unfoldable pub entry_data : Option Message → Prog (Option (String × Bytes))
unfolding lookup
entry_data none = pure none
entry_data (some m) = elim (lookup "data" m.fields) [
  | none ↦ raise (record { fault = value_error; text = "missing required 'data' field" })
  | some payload ↦ pure (some (m.id, payload))
]

unfoldable pub read_tool_call : String → String → Prog (Option (String × Bytes))
unfolding entry_data
read_tool_call group consumer_id = do
  found ← xreadgroup tool_calls_stream group consumer_id
  entry_data found

-- RedisClient.set_lease; the number in the text of the exception is left out
unfoldable pub set_lease : String → Bytes → ℤ → Prog Unit
set_lease worker_id proto_bytes ttl_s =
    if leb_ℤ ttl_s (pos 0)
    then raise (record { fault = value_error; text = "ttl_s must be a positive integer" })
    else redis_set (lease_key worker_id) proto_bytes ttl_s

abbrev pub execute_request : ToolCall → Json
execute_request call = obj (
    member "call_id" (str call.call_id) (
      member "task_id" (str call.task_id) (
        member "tool_name" (str call.tool_name) (
          member "input_json" (str call.input_json) (
            member "trace_id" (str call.trace_id) (
              member "user_id" (str call.user_id)
                (member "tenant_id" (str call.tenant_id) end)))))))

abbrev pub failed_result : ToolCall → Exn → ToolResult
failed_result call exc = record {
  call_id = call.call_id;
  task_id = call.task_id;
  success = false;
  output_json = "";
  error = "bridge error: " <> exc.text;
  duration_ms = pos 0;
  user_id = "";
  tenant_id = "";
}

module _ (c : Codec) (base_url : String) where
  unfoldable pub execute : ToolCall → Prog ToolResult
  execute call =
      try_except
        (do
          body ← http_post (base_url <> "/v1/execute") (execute_request call)
          lift (result_of c call body))
        (λ exc. pure (failed_result call exc))

  unfoldable pub write_tool_result : String → Bytes → Prog Unit
  write_tool_result task_id proto_bytes =
      xadd tool_results_stream (("data", proto_bytes) ∷ ("task_id", encode task_id) ∷ [])

  abbrev pub lease_of : ToolCall → String → ℤ → ℕ → WorkerLease
  lease_of call worker_id lease_ttl_s now_ms = record {
    worker_id = worker_id;
    task_id = call.task_id;
    call_id = call.call_id;
    leased_at_ms = pos now_ms;
    expires_at_ms = pos now_ms +ℤ lease_ttl_s *ℤ pos 1000;
  }

  -- worker.py
  unfoldable pub process_tool_call : ToolCall → String → ℤ → Prog Unit
  process_tool_call call worker_id lease_ttl_s = do
    now_ms ← ask Cmd.time_ms
    set_lease worker_id (c.lease_bytes (lease_of call worker_id lease_ttl_s now_ms)) lease_ttl_s
    try_finally
        (do
          start_ns ← ask Cmd.monotonic_ns
          result ← execute call
          end_ns ← ask Cmd.monotonic_ns
          write_tool_result call.task_id (
              c.result_bytes
                (record result { duration_ms = floor_div (sub_ℕ end_ns start_ns) 1000000 })))
        (redis_delete (lease_key worker_id))

  -- the body of `_consumer_loop` in main.py
  unfoldable pub handle_entry : String → ℤ → Option (String × Bytes) → Prog Unit
  handle_entry worker_id lease_ttl_s none = pure tt
  handle_entry worker_id lease_ttl_s (some (msg_id, call_bytes)) =
      try_finally
        (try_except
          (do call ← lift (c.parse_call call_bytes); process_tool_call call worker_id lease_ttl_s)
          (λ exc. pure tt))
        (xack tool_calls_stream consumer_group msg_id)

  unfoldable pub consume_one : String → ℤ → Prog Unit
  consume_one worker_id lease_ttl_s = do
    found ← read_tool_call consumer_group worker_id
    handle_entry worker_id lease_ttl_s found

  -- `rounds` turns of the loop
  unfoldable pub consumer_loop : ℕ → String → ℤ → Prog Unit
  consumer_loop zero worker_id lease_ttl_s = pure tt
  consumer_loop (suc rounds) worker_id lease_ttl_s = do
    consume_one worker_id lease_ttl_s
    consumer_loop rounds worker_id lease_ttl_s
