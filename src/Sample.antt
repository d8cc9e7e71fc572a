-- ===== src/Sample.antt =====
-- Sample values for tests: a codec, messages, and an outside that answers everything alike.
pub mod Packed
use belgrade_os.Base.{true, some, none, [], ◌∷◌, String}
use belgrade_os.Base.Int.{pos}
use belgrade_os.Base.Text.{encode}
use belgrade_os.Wire
use belgrade_os.Wire.{
  ThoughtEvent, Json, null, obj, end, member, str, bool, Task, ToolCall, ToolResult, VaultOperation,
  NotificationRequest, ScheduleOp,
}
use belgrade_os.World.{
  exited, Exn, Result, ok, raised, value_error, type_error, Message, Cmd, Stream, Reply,
}
use belgrade_os.Prog.{Env}
use belgrade_os.Codec.{Codec}

abbrev pub bad : Exn
bad = record { fault = value_error; text = "bad" }

abbrev pub call : ToolCall
call = record {
  call_id = "c1";
  task_id = "t1";
  tool_name = "shopping:add_item";
  input_json = "{}";
  trace_id = "r1";
  user_id = "u1";
  tenant_id = "h1";
  execution_mode = Wire.ExecutionMode.trusted;
}

abbrev pub task : Task
task = record {
  task_id = "t1";
  user_id = "u1";
  prompt = "hi";
  created_at_ms = 0;
  trace_id = "r1";
  execution_mode = Wire.ExecutionMode.trusted;
  app_id = "shopping";
  tenant_id = "";
}

abbrev pub result : ToolResult
result = record {
  call_id = "c1";
  task_id = "t1";
  success = true;
  output_json = "{}";
  error = "";
  duration_ms = pos 0;
  user_id = "u1";
  tenant_id = "h1";
}

abbrev pub notification : NotificationRequest
notification = record {
  trace_id = "r1";
  app_id = "shopping";
  user_id = "u1";
  title = "Added";
  body = "milk";
  priority = Wire.NotificationPriority.high;
  driver = "ntfy";
  tags = "cart" ∷ [];
  click_url = "";
}

abbrev pub vault_op : VaultOperation
vault_op = record {
  trace_id = "r1";
  app_id = "shopping";
  op = Wire.VaultOpType.write;
  path = "a.md";
  content = 35 ∷ [];
}

abbrev pub schedule_op : ScheduleOp
schedule_op = record {
  trace_id = "r1";
  op = Wire.ScheduleOpType.upsert;
  schedule_id = "shopping:u1:daily";
  app_id = "shopping";
  user_id = "u1";
  tenant_id = "h1";
  cron = "0 9 * * *";
  tool_name = "shopping:summarize";
  params_json = "{}";
}

abbrev pub thought : ThoughtEvent
thought = record {
  task_id = "t1";
  user_id = "u1";
  type = Wire.ThoughtEventType.done;
  content = "";
  trace_id = "r1";
}

abbrev pub text_of : Json → Result String
text_of (str s) = ok s
text_of _ = raised (record { fault = type_error; text = "not a text" })

-- Its parsers know one message each.
abbrev pub codec : Codec
codec = record {
  parse_task = λ _. ok task;
  parse_call = λ _. ok call;
  parse_result = λ _. ok result;
  parse_notification = λ _. ok notification;
  parse_vault_op = λ _. ok vault_op;
  parse_schedule_op = λ _. ok schedule_op;
  parse_thought = λ _. ok thought;
  task_bytes = λ t. encode t.prompt;
  call_bytes = λ c. encode c.tool_name;
  result_bytes = λ r. encode r.output_json;
  thought_bytes = λ e. encode e.content;
  lease_bytes = λ l. encode l.worker_id;
  notification_bytes = λ n. encode n.title;
  vault_op_bytes = λ o. encode o.path;
  schedule_op_bytes = λ o. encode o.schedule_id;
  to_text = text_of;
  to_bool = λ _. ok true;
  loads = λ _. ok (obj end);
  dumps = λ _. "{}";
  decode = λ _. ok "1";
}

abbrev pub entry : Message
entry = record { id = "1-0"; fields = ("data", 1 ∷ []) ∷ [] }

-- Every read delivers `entry`, every request succeeds, and the model ends its turn.
abbrev reply : (c : Cmd) → Reply c
reply (Cmd.xreadgroup _ _ _) = ok (some entry)
reply (Cmd.xack _ _ _) = ok tt
reply (Cmd.xadd _ _) = ok tt
reply (Cmd.publish _ _) = ok tt
reply (Cmd.redis_get _) = ok none
reply (Cmd.redis_delete _) = ok tt
reply (Cmd.redis_set _ _ _) = ok tt
reply (Cmd.redis_set_nx _ _ _) = ok true
reply (Cmd.xgroup_create _ _) = ok tt
reply (Cmd.replace_hash _ _) = ok tt
reply (Cmd.http_get _) = ok (obj end)
reply (Cmd.http_post _ _) = ok (obj end)
reply (Cmd.http_notify _ _ _) = ok tt
reply (Cmd.fs_mkdirs _) = ok tt
reply (Cmd.fs_exists _) = ok true
reply (Cmd.fs_remove _) = ok tt
reply (Cmd.fs_write _ _) = ok tt
reply (Cmd.fs_rename _ _) = ok tt
reply (Cmd.fs_read _) = ok (123 ∷ 125 ∷ [])
reply (Cmd.rmtree _) = tt
reply (Cmd.docker_run _) = ok (exited (pos 0) [])
reply (Cmd.docker_rm _) = ok tt
reply (Cmd.xadd_maxlen _ _ _) = ok tt
reply (Cmd.subscribe _) = ok tt
reply (Cmd.unsubscribe _) = ok tt
reply Cmd.close_pubsub = ok tt
reply Cmd.get_message = ok none
reply Cmd.db_session = ok tt
reply (Cmd.db_execute _) = ok tt
reply Cmd.db_close = ok tt
reply (Cmd.signing_key _ _) = ok "key"
reply (Cmd.aclose _) = ok tt
reply (Cmd.generate _ _) =
    Stream.text_chunk "hello" (Stream.stream_done "end_turn" [] Stream.finished)
reply Cmd.time_ms = 1000
reply Cmd.monotonic_ns = 5000000
reply Cmd.uuid4 = "id"
reply (Cmd.strftime _) = "202601010900"
reply (Cmd.sleep _) = tt

abbrev pub env : Env
env _ = reply
