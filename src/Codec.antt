-- ===== src/Codec.antt =====
-- The generated protobuf code, the JSON library and UTF-8 decoding, as functions
-- that the services are given.
-- `to_text` and `to_bool` are protobuf's conversions of a JSON value that is assigned to a field.
use belgrade_os.Base.{String, Bool}
use belgrade_os.Base.Text.{Bytes}
use belgrade_os.Wire.{
  Json, Task, ToolCall, ToolResult, ThoughtEvent, WorkerLease, NotificationRequest, VaultOperation,
  ScheduleOp,
}
use belgrade_os.World.{Result}

pub record Codec : Type 0 where
  pub parse_task : Bytes → Result Task
  pub parse_call : Bytes → Result ToolCall
  pub parse_result : Bytes → Result ToolResult
  pub parse_notification : Bytes → Result NotificationRequest
  pub parse_vault_op : Bytes → Result VaultOperation
  pub parse_schedule_op : Bytes → Result ScheduleOp
  pub parse_thought : Bytes → Result ThoughtEvent
  pub task_bytes : Task → Bytes
  pub call_bytes : ToolCall → Bytes
  pub result_bytes : ToolResult → Bytes
  pub thought_bytes : ThoughtEvent → Bytes
  pub lease_bytes : WorkerLease → Bytes
  pub notification_bytes : NotificationRequest → Bytes
  pub vault_op_bytes : VaultOperation → Bytes
  pub schedule_op_bytes : ScheduleOp → Bytes
  pub to_text : Json → Result String
  pub to_bool : Json → Result Bool
  pub loads : String → Result Json
  pub dumps : Json → String
  pub decode : Bytes → Result String
