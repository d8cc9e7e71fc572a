-- ===== src/Sdk/Operations.antt =====
-- What an app asks of the platform: `VaultAdapter`, the requests of `InferenceAdapter`, and the
-- notifications, events and schedules of `AppContext` in sdk/belgrade_sdk/context.py.
use belgrade_os.Base.{
  ℕ, String, ◌<>◌, Option, none, some, List, [], ◌∷◌, if◌then◌else◌, is_empty, ◌==◌,
}
use belgrade_os.Base.Int.{pos}
use belgrade_os.Base.Text.{Bytes, encode}
use belgrade_os.Wire
use belgrade_os.Wire.{
  Json, null, str, obj, end, member, ExecutionMode, NotificationPriority, Task, NotificationRequest,
  VaultOperation, ScheduleOp, VaultOpType,
}
use belgrade_os.World.{Cmd}
use belgrade_os.Prog.{Prog, pure, ask, try_except, ◌>>=◌, ◌>>◌}
use belgrade_os.Calls.{xadd, xadd_maxlen, redis_set, http_post}
use belgrade_os.Codec.{Codec}
use belgrade_os.Streams.{
  inbound_stream, notifications_stream, vault_ops_stream, schedule_ops_stream,
}
use belgrade_os.Sdk.Context.{Context, or_empty, opt_json, need_redis}

-- `content` of VaultAdapter.write
pub data Content : Type 0 where
  text : String → Content
  raw : Bytes → Content

abbrev content_bytes : Content → Bytes
content_bytes (text s) = encode s
content_bytes (raw b) = b

module _ (c : Codec) (upper : String → String) (ctx : Context) where
  abbrev pub vault_op : VaultOpType → String → Bytes → VaultOperation
  vault_op op path content = record {
    trace_id = ctx.trace_id;
    app_id = ctx.app_id;
    op = op;
    path = path;
    content = content;
  }

  -- `except Exception`: logged
  unfoldable pub publish_vault_op : VaultOperation → Prog Unit
  publish_vault_op op =
      try_except (need_redis ctx >> xadd vault_ops_stream (("data", c.vault_op_bytes op) ∷ []))
        (λ exc. pure tt)

  unfoldable pub vault_write : String → Content → Prog Unit
  vault_write path content =
      publish_vault_op (vault_op VaultOpType.write path (content_bytes content))

  unfoldable pub vault_delete : String → Prog Unit
  vault_delete path = publish_vault_op (vault_op VaultOpType.delete path [])

  abbrev pub task_of : String → String → ℕ → String → Task
  task_of task_id trace_id now_ms prompt = record {
    task_id = task_id;
    user_id = or_empty ctx.user_id;
    prompt = prompt;
    created_at_ms = now_ms;
    trace_id = trace_id;
    execution_mode = ExecutionMode.untrusted;
    app_id = ctx.app_id;
    tenant_id = or_empty ctx.tenant_id;
  }

  -- `self.ctx.trace_id or str(uuid4())`
  unfoldable pub new_trace : Prog String
  new_trace = if is_empty ctx.trace_id then ask Cmd.uuid4 else pure ctx.trace_id

  -- InferenceAdapter.request: the ids of the task and of the trace
  unfoldable pub request : String → Prog (String × String)
  request prompt = do
    need_redis ctx
    task_id ← ask Cmd.uuid4
    trace_id ← new_trace
    now_ms ← ask Cmd.time_ms
    xadd_maxlen inbound_stream
        (("data", c.task_bytes (task_of task_id trace_id now_ms prompt)) ∷ []) 1000
    pure (task_id, trace_id)

  unfoldable pub cancel : String → Prog Unit
  cancel task_id = need_redis ctx >> redis_set ("tasks:cancel:" <> task_id) (encode "1") (pos 3600)

  -- `priority_map.get(priority.upper(), NORMAL)`
  unfoldable pub priority_named : String → NotificationPriority
  priority_named priority =
      if upper priority == "LOW"
      then NotificationPriority.low
      else if upper priority == "HIGH"
      then NotificationPriority.high
      else NotificationPriority.normal

  abbrev pub notification :
      String → String → String → List String → Option String → NotificationRequest
  notification title body priority tags click_url = record {
    trace_id = ctx.trace_id;
    app_id = ctx.app_id;
    user_id = or_empty ctx.user_id;
    title = title;
    body = body;
    priority = priority_named priority;
    driver = ctx.notification_driver;
    tags = tags;
    click_url = or_empty click_url;
  }

  unfoldable pub notify : String → String → String → List String → Option String → Prog Unit
  notify title body priority tags click_url =
      try_except
        (need_redis ctx
          >> xadd notifications_stream (
              ("data", c.notification_bytes (notification title body priority tags click_url))
              ∷ []))
        (λ exc. pure tt)

  -- The answer of the Bridge is not looked at.
  unfoldable pub emit : String → Json → Prog Unit
  emit topic payload =
      try_except
        (do
          http_post (ctx.bridge_url <> "/v1/events/publish") (
              obj (
                member "topic" (str topic) (
                  member "payload" payload (
                    member "app_id" (str ctx.app_id) (
                      member "tenant_id" (opt_json ctx.tenant_id)
                        (member "trace_id" (str ctx.trace_id) end))))))
          pure tt)
        (λ exc. pure tt)

  abbrev pub schedule_id : String → String
  schedule_id name = ctx.app_id <> ":" <> or_empty ctx.user_id <> ":" <> name

  -- `params or {}`
  abbrev params_json : Option Json → String
  params_json none = c.dumps (obj end)
  params_json (some params) = c.dumps params

  abbrev pub upsert_op : String → String → String → Option Json → ScheduleOp
  upsert_op name cron tool_name params = record {
    trace_id = ctx.trace_id;
    op = Wire.ScheduleOpType.upsert;
    schedule_id = schedule_id name;
    app_id = ctx.app_id;
    user_id = or_empty ctx.user_id;
    tenant_id = or_empty ctx.tenant_id;
    cron = cron;
    tool_name = tool_name;
    params_json = params_json params;
  }

  abbrev pub delete_op : String → ScheduleOp
  delete_op name = record {
    trace_id = ctx.trace_id;
    op = Wire.ScheduleOpType.delete;
    schedule_id = schedule_id name;
    app_id = ctx.app_id;
    user_id = or_empty ctx.user_id;
    tenant_id = "";
    cron = "";
    tool_name = "";
    params_json = "{}";
  }

  unfoldable pub publish_schedule_op : ScheduleOp → Prog Unit
  publish_schedule_op op =
      need_redis ctx >> xadd schedule_ops_stream (("data", c.schedule_op_bytes op) ∷ [])

  unfoldable pub schedule : String → String → String → Option Json → Prog Unit
  schedule name cron tool_name params = publish_schedule_op (upsert_op name cron tool_name params)

  unfoldable pub unschedule : String → Prog Unit
  unschedule name = publish_schedule_op (delete_op name)
