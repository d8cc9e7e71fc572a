-- ===== src/Runner/Tests.antt =====
-- The runner at concrete inputs.
use belgrade_os.Base.{◌≡◌, refl, [], ◌∷◌}
use belgrade_os.Base.Int.{pos}
use belgrade_os.World.{Result, Cmd, key_error}
use belgrade_os.Prog.{History}
use belgrade_os.Calls.{running}
use belgrade_os.Delivery.{commands, delivered}
use belgrade_os.Streams.{tool_calls_stream}
use belgrade_os.Sample.{codec, env, call}
use belgrade_os.Runner.{
  consumer_loop, consume_one, read_tool_call, handle_entry, process_tool_call, failed_result,
  result_of, set_lease, execute, write_tool_result,
}
use belgrade_os.Runner.Lease.{process_tool_call-publishes, publish_result, bridge_call, store_lease}

-- Two entries are read, executed, answered and acknowledged.
abbrev worker_run : Result {0} Unit × History
worker_run = consumer_loop codec "http://b" 2 "w" (pos 60) env []

two_entries_settled : delivered tool_calls_stream worker_run.1 ≡ "1-0" ∷ "1-0" ∷ []
unfolding running consumer_loop consume_one read_tool_call handle_entry process_tool_call result_of
    set_lease execute write_tool_result
two_entries_settled = refl

-- The Bridge answers with an object that lacks `call_id`: the failed result is published.
process_tool_call-publishes_example :
    commands (process_tool_call codec "http://b" call "w" (pos 60) env []).1
    ≡ Cmd.redis_delete "lease:w"
      ∷ publish_result codec "http://b" "t1"
          (failed_result call (record { fault = key_error; text = "'call_id'" }))
      ∷ Cmd.monotonic_ns
      ∷ bridge_call codec "http://b" call
      ∷ Cmd.monotonic_ns
      ∷ store_lease codec "http://b" call "w" (pos 60) 1000
      ∷ Cmd.time_ms
      ∷ []
unfolding running result_of
process_tool_call-publishes_example =
    process_tool_call-publishes codec "http://b" call "w" (pos 60) env [] refl refl
