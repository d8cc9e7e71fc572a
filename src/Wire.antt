-- ===== src/Wire.antt =====
-- The messages of proto/belgrade_os.proto, and JSON values. Enumerations of proto3 are open: a
-- number that the schema does not list is kept, here as `unknown`.
mod Values
pub use Values.{
  Json, null, bool, int, float, str, arr, obj, Items, nil, item, Members, end, member, is_obj,
}
unfoldable pub use Values.{get_member}
use belgrade_os.Base.{ℕ, String, Bool, List}
use belgrade_os.Base.Text.{Bytes}
use belgrade_os.Base.Int.{ℤ}

pub data ExecutionMode : Type 0 where
  unspecified trusted untrusted : ExecutionMode
  unknown : ℕ → ExecutionMode

pub data ThoughtEventType : Type 0 where
  unspecified thinking tool_use response_chunk done error : ThoughtEventType
  unknown : ℕ → ThoughtEventType

pub data NotificationPriority : Type 0 where
  unspecified low normal high : NotificationPriority
  unknown : ℕ → NotificationPriority

pub data VaultOpType : Type 0 where
  unspecified write delete : VaultOpType
  unknown : ℕ → VaultOpType

pub data ScheduleOpType : Type 0 where
  unspecified upsert delete : ScheduleOpType
  unknown : ℕ → ScheduleOpType

pub record Task : Type 0 where
  pub task_id : String
  pub user_id : String
  pub prompt : String
  pub created_at_ms : ℕ
  pub trace_id : String
  pub execution_mode : ExecutionMode
  pub app_id : String
  pub tenant_id : String

pub record ToolCall : Type 0 where
  pub call_id : String
  pub task_id : String
  pub tool_name : String
  pub input_json : String
  pub trace_id : String
  pub user_id : String
  pub tenant_id : String
  pub execution_mode : ExecutionMode

pub record ToolResult : Type 0 where
  pub call_id : String
  pub task_id : String
  pub success : Bool
  pub output_json : String
  pub error : String
  pub duration_ms : ℤ
  pub user_id : String
  pub tenant_id : String

pub record ThoughtEvent : Type 0 where
  pub task_id : String
  pub user_id : String
  pub type : ThoughtEventType
  pub content : String
  pub trace_id : String

pub record WorkerLease : Type 0 where
  pub worker_id : String
  pub task_id : String
  pub call_id : String
  pub leased_at_ms : ℤ
  pub expires_at_ms : ℤ

pub record NotificationRequest : Type 0 where
  pub trace_id : String
  pub app_id : String
  pub user_id : String
  pub title : String
  pub body : String
  pub priority : NotificationPriority
  pub driver : String
  pub tags : List String
  pub click_url : String

pub record VaultOperation : Type 0 where
  pub trace_id : String
  pub app_id : String
  pub op : VaultOpType
  pub path : String
  pub content : Bytes

pub record ScheduleOp : Type 0 where
  pub trace_id : String
  pub op : ScheduleOpType
  pub schedule_id : String
  pub app_id : String
  pub user_id : String
  pub tenant_id : String
  pub cron : String
  pub tool_name : String
  pub params_json : String
