-- ===== src/Platform/Schedules/Consumer.antt =====
-- `_schedule_ops_consumer_loop` of services/platform_controller/main.py.
pub mod Words
pub mod Replay
use belgrade_os.Base.{ℕ, zero, suc, String, Option, none, some, List, [], ◌∷◌}
use belgrade_os.Base.Dict.{lookup}
use belgrade_os.Base.Text.{Bytes}
use belgrade_os.Wire.{ScheduleOp}
use belgrade_os.World.{Fault, connection_error, Result, ok, raised, Cmd, Message}
use belgrade_os.Prog.{Prog, pure, ask, try_except, ◌>>=◌, ◌>>◌}
use belgrade_os.Calls.{xreadgroup, xack}
use belgrade_os.Codec.{Codec}
use belgrade_os.Streams.{schedule_ops_stream}
use belgrade_os.Startup.{join_group}
use belgrade_os.Platform.Schedules.{Store, Services, Outcome, process_schedule_op}

abbrev pub consumer_group : String
consumer_group = "schedule-ops-runners"

abbrev backoff : Fault → ℕ
backoff connection_error = 5
backoff _ = 1

module _ (c : Codec) (services : Services) where
  abbrev pub process_parsed : Result ScheduleOp → Store → Outcome
  process_parsed (raised x) s = (raised x, s)
  process_parsed (ok op) s = process_schedule_op services op s

  -- _process_schedule_op
  unfoldable pub process_data : Bytes → Store → Outcome
  process_data payload s = process_parsed (c.parse_schedule_op payload) s

  -- acknowledged, or the exception is logged
  unfoldable pub settle : String → Result (Unit {0}) → Store → Prog Store
  settle msg_id (raised x) s = pure s
  settle msg_id (ok _) s =
      try_except (xack schedule_ops_stream consumer_group msg_id >> pure s) (λ exc. pure s)

  -- the body of `for msg_id, fields in messages`
  unfoldable pub handle_data : String → Option Bytes → Store → Prog Store
  handle_data msg_id none s = xack schedule_ops_stream consumer_group msg_id >> pure s
  handle_data msg_id (some payload) s = let (r, s') = process_data payload s in settle msg_id r s'

  unfoldable pub handle_message : Option Message → Store → Prog Store
  unfolding lookup
  handle_message none s = pure s
  handle_message (some m) s = handle_data m.id (lookup "data" m.fields) s

  -- one turn of `while True`
  unfoldable pub consume_one : Store → Prog Store
  consume_one s =
      try_except
        (do
          found ← xreadgroup schedule_ops_stream consumer_group "platform-controller"
          handle_message found s)
        (λ exc. do ask (Cmd.sleep (backoff exc.fault)); pure s)

  unfoldable pub consumer_loop : ℕ → Store → Prog Store
  consumer_loop zero s = pure s
  consumer_loop (suc turns) s = do s' ← consume_one s; consumer_loop turns s'

  -- _schedule_ops_consumer_loop, for a number of turns
  unfoldable pub serve : ℕ → Store → Prog Store
  serve turns s = do join_group schedule_ops_stream consumer_group; consumer_loop turns s
