-- ===== src/Platform/Schedules/Crons.antt =====
-- Which crons reach the table.
use belgrade_os.Base.{String, ◌≡◌, eq_iff, none, some, arith, inl, inr}
use belgrade_os.Base.Dict.{Dict, lookup, contains, insert, erase, lookup-insert, lookup-erase}
use belgrade_os.Wire
use belgrade_os.Wire.{Json, ScheduleOp}
use belgrade_os.World.{Exn, Result, ok, raised, Result-cases}
use belgrade_os.Platform.Schedules.{
  ScheduleEntry, Store, Services, upserted, deleted, remove_schedule, add_schedule, store_schedule,
  drop_schedule, entry_of, params_of, upsert_with, apply_op, process_schedule_op, create_schedule,
}

module _ (services : Services) where
  -- Every row has a cron that the scheduler library parses.
  abbrev pub HasCrons : Dict ScheduleEntry → Type 0
  HasCrons rows =
      (id : String) (row : ScheduleEntry)
      → lookup id rows ≡ some row
      → services.from_crontab row.cron ≡ ok tt

  pub HasCrons-insert :
      (entry : ScheduleEntry) (rows : Dict ScheduleEntry)
      → services.from_crontab entry.cron ≡ ok tt
      → HasCrons rows
      → HasCrons (insert entry.id entry rows)
  HasCrons-insert entry rows valid h id row found =
      ground (arith, h id row, lookup-insert entry.id id entry rows, valid)

  HasCrons-erase :
      (k : String) (rows : Dict ScheduleEntry) → HasCrons rows → HasCrons (erase k rows)
  HasCrons-erase k rows h id row found = ground (arith, h id row, lookup-erase k id rows)

  remove_schedule-rows : (id : String) (s : Store) → (remove_schedule services id s).1.rows ≡ s.rows
  unfolding remove_schedule
  remove_schedule-rows id s = ground arith

  add_schedule-rows :
      (entry : ScheduleEntry) (s : Store) → (add_schedule services entry s).1.rows ≡ s.rows
  unfolding add_schedule
  add_schedule-rows entry s = ground (arith, remove_schedule-rows entry.id s)

  store_schedule-HasCrons :
      (entry : ScheduleEntry) (s : Store)
      → services.from_crontab entry.cron ≡ ok tt
      → HasCrons s.rows
      → HasCrons (store_schedule services entry s).1.rows
  unfolding store_schedule
  store_schedule-HasCrons entry s valid h id row found = ground (
    arith,
    h id row,
    valid,
    add_schedule-rows entry (upserted services entry s),
    lookup-insert entry.id id entry s.rows,
  )

  drop_schedule-HasCrons :
      (id : String) (s : Store) → HasCrons s.rows → HasCrons (drop_schedule services id s).1.rows
  unfolding drop_schedule
  drop_schedule-HasCrons k s h id row found =
      ground
        (arith, h id row, remove_schedule-rows k (deleted services k s), lookup-erase k id s.rows)

  upsert_with-HasCrons :
      (op : ScheduleOp) (params : Result Json) (s : Store)
      → HasCrons s.rows
      → HasCrons (upsert_with services op params s).1.rows
  upsert_with-HasCrons op (raised x) s h id row found = h id row found
  upsert_with-HasCrons op (ok params) s h id row found =
      elim (Result-cases (services.from_crontab op.cron)) [
        | inl (_, valid) ↦ ground (
          arith,
          h id row,
          store_schedule-HasCrons (entry_of services op params) s valid h id row,
        )
        | inr (x, invalid) ↦ ground (arith, h id row)
      ]

  apply_op-HasCrons :
      (op : ScheduleOp) (kind : Wire.ScheduleOpType) (s : Store)
      → HasCrons s.rows
      → HasCrons (apply_op services op kind s).1.rows
  apply_op-HasCrons op Wire.ScheduleOpType.upsert s h id row found =
      ground (arith, h id row, upsert_with-HasCrons op (params_of services op) s h id row)
  apply_op-HasCrons op Wire.ScheduleOpType.delete s h id row found =
      ground (arith, h id row, drop_schedule-HasCrons op.schedule_id s h id row)
  apply_op-HasCrons op Wire.ScheduleOpType.unspecified s h id row found = h id row found
  apply_op-HasCrons op (Wire.ScheduleOpType.unknown n) s h id row found = h id row found

  -- Whatever PostgreSQL and the scheduler library answer, failures included: if every row has a cron
  -- that the library parses, then so it is after any schedule operation from the stream.
  pub process_schedule_op-HasCrons :
      (op : ScheduleOp) (s : Store)
      → HasCrons s.rows
      → HasCrons (process_schedule_op services op s).1.rows
  unfolding process_schedule_op
  process_schedule_op-HasCrons op s h id row found =
      ground (arith, h id row, apply_op-HasCrons op op.op s h id row)

  -- `POST /schedules` with a cron that the library does not parse, while PostgreSQL commits and the
  -- library gives up jobs: the request fails, and it leaves the row in the table without a job, also
  -- where a valid schedule of that id had a job before.
  pub create_schedule-invalid :
      (entry : ScheduleEntry) (x : Exn) (s : Store)
      → services.from_crontab entry.cron ≡ raised x
      → services.commit ≡ ok tt
      → services.remove_job entry.id ≡ ok tt
      → let (r, s') = create_schedule services entry s in
        (r ≡ raised x)
        × (lookup entry.id s'.rows ≡ some entry)
        × (lookup entry.id s'.active_jobs ≡ none)
  unfolding create_schedule store_schedule add_schedule remove_schedule contains
  create_schedule-invalid entry x s invalid commits gone = ground (
    arith,
    lookup-insert entry.id entry.id entry s.rows,
    lookup-erase entry.id entry.id s.active_jobs,
    eq_iff entry.id entry.id,
  )
