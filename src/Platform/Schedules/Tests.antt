-- ===== src/Platform/Schedules/Tests.antt =====
-- The schedules at concrete inputs.
use belgrade_os.Base.{String, ◌==◌, ◌≡◌, refl, if◌then◌else◌, none, some, [], ◌∷◌}
use belgrade_os.Base.Dict.{Dict, lookup, insert}
use belgrade_os.Wire.{obj, end, ScheduleOp}
use belgrade_os.World.{Result, ok, raised, Cmd}
use belgrade_os.Sample.{codec, env, bad, schedule_op}
use belgrade_os.Platform.Schedules.{
  ScheduleEntry, Store, Services, process_schedule_op, create_schedule, delete_schedule,
  delete_app_schedules, list_schedules,
}
use belgrade_os.Platform.Schedules.Sync.{IsTable, IsValid, AreUp}
use belgrade_os.Platform.Schedules.Apps.{operations-IsInSync}
use belgrade_os.Platform.Schedules.Crons.{
  HasCrons, HasCrons-insert, process_schedule_op-HasCrons, create_schedule-invalid,
}
use belgrade_os.Platform.Schedules.Consumer.{serve}
use belgrade_os.Platform.Schedules.Dispatch.{dispatch_payload, execute_tool}
use belgrade_os.Calls.{running}
use belgrade_os.Delivery.{commands}
use belgrade_os.Platform.Schedules.Consumer.Replay.{IsReplay, serve-Follows}

-- A library that parses every cron but the text "never".
abbrev from_crontab : String → Result (Unit {0})
from_crontab cron = if cron == "never" then raised bad else ok tt

abbrev pub services : Services
services = record {
  commit = ok tt;
  from_crontab = from_crontab;
  add_job = λ _. ok tt;
  remove_job = λ _. ok tt;
  loads = λ _. ok (obj end);
}

abbrev daily : ScheduleEntry
daily = record {
  id = "shopping:u1:daily";
  app_id = "shopping";
  user_id = "u1";
  tenant_id = "h1";
  cron = "0 9 * * *";
  tool_name = "shopping:summarize";
  params = obj end;
}

abbrev never : ScheduleEntry
never = record daily { cron = "never" }

abbrev pub one_row : Dict ScheduleEntry
one_row = ("shopping:u1:daily", daily) ∷ []

abbrev store : Store
store = record { rows = one_row; active_jobs = one_row }

pub up : AreUp services
up = record { commits = refl; adds = λ _. refl; removes = λ _. refl }

pub one_row-IsTable : IsTable one_row
unfolding lookup
one_row-IsTable = (refl, refl, tt)

one_row-HasCrons : HasCrons services one_row
unfolding insert lookup
one_row-HasCrons = HasCrons-insert services daily [] refl (λ id row found. cc)

listed : list_schedules (some "shopping") (some "") one_row ≡ daily ∷ []
unfolding list_schedules
listed = refl

operations-IsInSync_example :
    ((op : ScheduleOp) → IsValid (process_schedule_op services op store).1)
    × ((entry : ScheduleEntry)
        → services.from_crontab entry.cron ≡ ok tt
        → IsValid (create_schedule services entry store).1)
    × ((id : String) → IsValid (delete_schedule services id store).1)
    × ((app_id : String)
        → let s' = (delete_app_schedules services app_id store).1 in
          IsValid s'
          × ((id : String) (row : ScheduleEntry)
              → lookup id store.rows ≡ some row
              → lookup id s'.rows ≡ (if row.app_id == app_id then none else some row)))
operations-IsInSync_example = operations-IsInSync services up store (one_row-IsTable, λ id. refl)

process_schedule_op-HasCrons_example :
    HasCrons services (process_schedule_op services schedule_op store).1.rows
process_schedule_op-HasCrons_example =
    process_schedule_op-HasCrons services schedule_op store one_row-HasCrons

create_schedule-invalid_example :
    let (r, s') = create_schedule services never store in
    (r ≡ raised bad)
    × (lookup "shopping:u1:daily" s'.rows ≡ some never)
    × (lookup "shopping:u1:daily" s'.active_jobs ≡ none)
create_schedule-invalid_example = create_schedule-invalid services never bad store refl refl refl

serve-Follows_example : IsReplay codec services store (serve codec services 2 store env [])
serve-Follows_example =
    serve-Follows codec services up store store 2 env [] (one_row-IsTable, λ id. refl) (λ id. refl)

-- A job asks the Bridge once, in the name of the schedule's user and tenant.
dispatched :
    commands (execute_tool codec "http://b" daily env []).1
    ≡ Cmd.http_post "http://b/v1/execute"
        (dispatch_payload codec "http://b" daily "id" "202601010900" "id")
      ∷ Cmd.uuid4
      ∷ Cmd.strftime "%Y%m%d%H%M"
      ∷ Cmd.uuid4
      ∷ []
unfolding execute_tool running
dispatched = refl
