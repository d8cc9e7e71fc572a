-- ===== src/Platform/Schedules.antt =====
-- The schedules of services/platform_controller: `SchedulerManager` of scheduler.py, and in main.py
-- `_process_schedule_op`, the endpoints under /schedules and the loading at startup.
pub mod Sync
pub mod Crons
pub mod Apps
pub mod Startup
pub mod Consumer
pub mod Dispatch
pub mod Tests
use belgrade_os.Base.{
  String, ◌==◌, Bool, true, false, not, ◌&&◌, ◌||◌, Option, none, some, List, [], ◌∷◌,
  if◌then◌else◌, is_empty,
}
use belgrade_os.Base.Dict.{Dict, lookup, contains, insert, erase}
use belgrade_os.Wire
use belgrade_os.Wire.{Json, obj, end, ScheduleOp, is_obj}
use belgrade_os.World.{Exn, Result, ok, raised, value_error}
use belgrade_os.Platform.AppId.{is_app_id}
use belgrade_os.Platform.Supervisor.{is_value_error}

pub record ScheduleEntry : Type 0 where
  pub id : String
  pub app_id : String
  pub user_id : String
  pub tenant_id : String
  pub cron : String
  pub tool_name : String
  pub params : Json

-- `rows` is the table shared.schedules by its primary key, `active_jobs` the manager's dict, each
-- job as the entry that it was made for.
pub record Store : Type 0 where
  pub rows : Dict ScheduleEntry
  pub active_jobs : Dict ScheduleEntry

-- What PostgreSQL answers to a transaction, and what croniter and the scheduler library answer.
pub record Services : Type 0 where
  pub commit : Result (Unit {0})
  pub from_crontab : String → Result (Unit {0})
  pub add_job : ScheduleEntry → Result (Unit {0})
  pub remove_job : String → Result (Unit {0})
  pub loads : String → Result Json

abbrev pub Outcome : Type 0
Outcome = Result (Unit {0}) × Store

-- Go on after a call that returned.
abbrev next : Result (Unit {0}) → Outcome → Store → Outcome
next (ok _) o s = o
next (raised x) o s = (raised x, s)

module _ (services : Services) where
  unfoldable pub remove_schedule : String → Store → Outcome
  unfolding contains erase
  remove_schedule schedule_id s =
      if contains schedule_id s.active_jobs
      then next (services.remove_job schedule_id)
          (ok tt, record s { active_jobs = erase schedule_id s.active_jobs }) s
      else (ok tt, s)

  abbrev scheduled : ScheduleEntry → Store → Store
  scheduled entry s = record s { active_jobs = insert entry.id entry s.active_jobs }

  -- A job of the same id is removed first.
  unfoldable pub add_schedule : ScheduleEntry → Store → Outcome
  unfolding insert
  add_schedule entry s =
      let (r, s') = remove_schedule entry.id s in
      next r
        (next (services.from_crontab entry.cron)
          (next (services.add_job entry) (ok tt, scheduled entry s') s') s')
        s'

  -- INSERT … ON CONFLICT (id) DO UPDATE, and the commit
  abbrev upserted : ScheduleEntry → Store → Store
  upserted entry s = record s { rows = insert entry.id entry s.rows }

  abbrev deleted : String → Store → Store
  deleted schedule_id s = record s { rows = erase schedule_id s.rows }

  unfoldable pub store_schedule : ScheduleEntry → Store → Outcome
  unfolding insert
  store_schedule entry s = next services.commit (add_schedule entry (upserted entry s)) s

  unfoldable pub drop_schedule : String → Store → Outcome
  unfolding erase
  drop_schedule schedule_id s =
      next services.commit (remove_schedule schedule_id (deleted schedule_id s)) s

  -- `ScheduleEntry(…)` of an operation; `params` is to be a dict
  abbrev entry_of : ScheduleOp → Json → ScheduleEntry
  entry_of op params = record {
    id = op.schedule_id;
    app_id = op.app_id;
    user_id = op.user_id;
    tenant_id = op.tenant_id;
    cron = op.cron;
    tool_name = op.tool_name;
    params = params;
  }

  abbrev params_of : ScheduleOp → Result Json
  params_of op = if is_empty op.params_json then ok (obj end) else services.loads op.params_json

  -- `except ValueError: … return`
  abbrev check_cron : Result (Unit {0}) → Outcome → Store → Outcome
  check_cron (ok _) o s = o
  check_cron (raised x) o s = (if is_value_error x.fault then ok tt else raised x, s)

  abbrev upsert_with : ScheduleOp → Result Json → Store → Outcome
  upsert_with op (raised x) s = (raised x, s)
  upsert_with op (ok params) s =
      if is_obj params
      then check_cron (services.from_crontab op.cron) (store_schedule (entry_of op params) s) s
      else (raised (record { fault = value_error; text = "params: not a valid dictionary" }), s)

  abbrev apply_op : ScheduleOp → Wire.ScheduleOpType → Store → Outcome
  apply_op op Wire.ScheduleOpType.upsert s =
      if is_empty op.schedule_id || is_empty op.cron || is_empty op.tool_name
      then (ok tt, s)
      else upsert_with op (params_of op) s
  apply_op op Wire.ScheduleOpType.delete s =
      if is_empty op.schedule_id then (ok tt, s) else drop_schedule op.schedule_id s
  apply_op op _ s = (ok tt, s)

  -- _process_schedule_op, after the parsing
  unfoldable pub process_schedule_op : ScheduleOp → Store → Outcome
  process_schedule_op op s = if is_app_id op.app_id then apply_op op op.op s else (ok tt, s)

  -- POST /schedules
  unfoldable pub create_schedule : ScheduleEntry → Store → Outcome
  create_schedule entry s = store_schedule entry s

  -- DELETE /schedules/{schedule_id}
  unfoldable pub delete_schedule : String → Store → Outcome
  delete_schedule schedule_id s = drop_schedule schedule_id s

  -- `SELECT id FROM shared.schedules WHERE app_id = :app_id`
  unfoldable pub ids_of_app : String → Dict ScheduleEntry → List String
  ids_of_app app_id [] = []
  ids_of_app app_id ((id, entry) ∷ rows) =
      let rest = ids_of_app app_id rows in if entry.app_id == app_id then id ∷ rest else rest

  -- `DELETE FROM shared.schedules WHERE app_id = :app_id`
  unfoldable pub without_app : String → Dict ScheduleEntry → Dict ScheduleEntry
  without_app app_id [] = []
  without_app app_id ((id, entry) ∷ rows) =
      let rest = without_app app_id rows in
      if entry.app_id == app_id then rest else (id, entry) ∷ rest

  unfoldable pub remove_schedules : List String → Store → Outcome
  remove_schedules [] s = (ok tt, s)
  remove_schedules (id ∷ ids) s =
      let (r, s') = remove_schedule id s in let rest = remove_schedules ids s' in next r rest s'

  abbrev without_rows : String → Store → Store
  without_rows app_id s = record s { rows = without_app app_id s.rows }

  -- DELETE /apps/{app_id}/schedules, for an app id that the endpoint accepts
  unfoldable pub delete_app_schedules : String → Store → Outcome
  unfolding ids_of_app without_app
  delete_app_schedules app_id s =
      let (r, s') = remove_schedules (ids_of_app app_id s.rows) s in
      next r (next services.commit (ok tt, without_rows app_id s') s') s'

  -- one row at startup: its `params` are to be a dict
  unfoldable pub load_row : ScheduleEntry → Store → Outcome
  load_row entry s =
      if is_obj entry.params
      then add_schedule entry s
      else (raised (record { fault = value_error; text = "params: not a valid dictionary" }), s)

  -- the loading at startup
  unfoldable pub load_schedules : Dict ScheduleEntry → Store → Outcome
  load_schedules [] s = (ok tt, s)
  load_schedules ((id, row) ∷ rows) s =
      let (r, s') = load_row (record row { id = id }) s in
      let rest = load_schedules rows s' in next r rest s'

-- `app_id and user_id`, each where it is given and not empty
abbrev selected : Option String → String → Bool
selected none value = true
selected (some wanted) value = is_empty wanted || value == wanted

-- GET /schedules
unfoldable pub list_schedules :
    Option String → Option String → Dict ScheduleEntry → List ScheduleEntry
list_schedules app_id user_id [] = []
list_schedules app_id user_id ((_, row) ∷ rows) =
    let rest = list_schedules app_id user_id rows in
    if selected app_id row.app_id && selected user_id row.user_id then row ∷ rest else rest
