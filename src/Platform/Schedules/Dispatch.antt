-- ===== src/Platform/Schedules/Dispatch.antt =====
-- `SchedulerManager._execute_tool` of services/platform_controller/scheduler.py: what a job does.
use belgrade_os.Base.{String, ◌<>◌}
use belgrade_os.Wire.{Json, str, obj, end, member}
use belgrade_os.World.{Cmd}
use belgrade_os.Prog.{Prog, pure, ask, try_except, ◌>>=◌, ◌>>◌}
use belgrade_os.Calls.{http_post}
use belgrade_os.Codec.{Codec}
use belgrade_os.Platform.Schedules.{ScheduleEntry}

module _ (c : Codec) (bridge_url : String) where
  abbrev pub dispatch_payload : ScheduleEntry → String → String → String → Json
  dispatch_payload entry call_id minute trace_uuid = obj (
      member "call_id" (str call_id) (
        member "task_id" (str ("sched-" <> entry.id <> "-" <> minute)) (
          member "tool_name" (str entry.tool_name) (
            member "input_json" (str (c.dumps entry.params)) (
              member "user_id" (str entry.user_id) (
                member "tenant_id" (str entry.tenant_id)
                  (member "trace_id" (str ("trace-" <> trace_uuid)) end)))))))

  -- The answer is only logged.
  unfoldable pub execute_tool : ScheduleEntry → Prog Unit
  execute_tool entry = do
    call_id ← ask Cmd.uuid4
    minute ← ask (Cmd.strftime "%Y%m%d%H%M")
    trace_uuid ← ask Cmd.uuid4
    try_except
        (http_post (bridge_url <> "/v1/execute") (dispatch_payload entry call_id minute trace_uuid)
          >> pure tt)
        (λ exc. pure tt)
