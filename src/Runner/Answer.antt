-- ===== src/Runner/Answer.antt =====
-- How BridgeClient.execute reads the Bridge's answer.
use belgrade_os.Base.Int.{pos}
use belgrade_os.Wire.{Json, str, ToolCall, ToolResult}
use belgrade_os.World.{Result, ok}
use belgrade_os.Access.{index, get_or}
use belgrade_os.Results.{◌>>=◌}
use belgrade_os.Codec.{Codec}

unfoldable pub result_of : Codec → ToolCall → Json → Result ToolResult
unfolding index get_or
result_of c call body = do
  call_id ← index "call_id" body
  task_id ← index "task_id" body
  success ← index "success" body
  output_json ← get_or (str "") "output_json" body
  error ← get_or (str "") "error" body
  call_id ← c.to_text call_id
  task_id ← c.to_text task_id
  success ← c.to_bool success
  output_json ← c.to_text output_json
  error ← c.to_text error
  ok (record {
    call_id = call_id;
    task_id = task_id;
    success = success;
    output_json = output_json;
    error = error;
    duration_ms = pos 0;
    user_id = call.user_id;
    tenant_id = call.tenant_id;
  })
