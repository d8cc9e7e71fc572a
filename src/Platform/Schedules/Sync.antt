-- ===== src/Platform/Schedules/Sync.antt =====
-- The jobs of the scheduler are those of the table.
use belgrade_os.Base.{
  String, ◌==◌, ◌≡◌, refl, eq_iff, none, some, [], ◌∷◌, if◌then◌else◌, arith, inl, inr,
}
use belgrade_os.Base.Dict.{
  Dict, lookup, contains, insert, erase, lookup-nil, lookup-insert, lookup-erase,
}
use belgrade_os.Wire
use belgrade_os.Wire.{Json, ScheduleOp}
use belgrade_os.World.{Result, ok, raised, Result-cases}
use belgrade_os.Platform.Schedules.{
  ScheduleEntry, Store, Services, upserted, deleted, remove_schedule, add_schedule, store_schedule,
  drop_schedule, entry_of, params_of, upsert_with, apply_op, process_schedule_op,
}

-- Under every id there is a job exactly if there is a row, and it was made for that row.
abbrev pub IsInSync : Store → Type 0
IsInSync s = (id : String) → lookup id s.active_jobs ≡ lookup id s.rows

-- The table lists every row under its own id, once.
abbrev pub IsTable : Dict ScheduleEntry → Type 0
IsTable [] = Unit
IsTable ((id, row) ∷ rows) = (row.id ≡ id) × (lookup id rows ≡ none) × IsTable rows

abbrev pub IsValid : Store → Type 0
IsValid s = IsTable s.rows × IsInSync s

IsTable-insert :
    (entry : ScheduleEntry) (rows : Dict ScheduleEntry)
    → IsTable rows
    → IsTable (insert entry.id entry rows)
unfolding insert
IsTable-insert entry [] h = (refl, lookup-nil entry.id, tt)
IsTable-insert entry ((id, row) ∷ rows) h = ground (
  arith,
  IsTable-insert entry rows,
  lookup-insert entry.id id entry rows,
  eq_iff id entry.id,
  eq_iff entry.id id,
)

IsTable-erase : (k : String) (rows : Dict ScheduleEntry) → IsTable rows → IsTable (erase k rows)
unfolding erase
IsTable-erase k [] h = tt
IsTable-erase k ((id, row) ∷ rows) h = ground (arith, IsTable-erase k rows, lookup-erase k id rows)

-- PostgreSQL commits, and the scheduler library takes every job and gives up every job.
pub record AreUp (services : Services) : Type 0 where
  pub commits : services.commit ≡ ok tt
  pub adds : (entry : ScheduleEntry) → services.add_job entry ≡ ok tt
  pub removes : (id : String) → services.remove_job id ≡ ok tt

module _ (services : Services) (up : AreUp services) where
  pub remove_schedule-lookup :
      (id : String) (s : Store)
      → ((remove_schedule services id s).0 ≡ ok tt)
        × ((remove_schedule services id s).1.rows ≡ s.rows)
        × ((j : String)
            → lookup j (remove_schedule services id s).1.active_jobs
              ≡ (if id == j then none else lookup j s.active_jobs))
  unfolding remove_schedule contains
  remove_schedule-lookup id s = (
    ground (arith, up.removes id),
    ground (arith, up.removes id),
    λ j. ground (arith, up.removes id, lookup-erase id j s.active_jobs, eq_iff id j),
  )

  pub add_schedule-lookup :
      (entry : ScheduleEntry) (s : Store)
      → services.from_crontab entry.cron ≡ ok tt
      → ((add_schedule services entry s).0 ≡ ok tt)
        × ((add_schedule services entry s).1.rows ≡ s.rows)
        × ((j : String)
            → lookup j (add_schedule services entry s).1.active_jobs
              ≡ (if entry.id == j then some entry else lookup j s.active_jobs))
  unfolding add_schedule
  add_schedule-lookup entry s valid =
      let (done, same, others) = remove_schedule-lookup entry.id s in
      let s' = (remove_schedule services entry.id s).1 in
      (
        ground (arith, up.adds entry, done),
        ground (arith, up.adds entry, done),
        λ j. ground (arith, up.adds entry, others j, lookup-insert entry.id j entry s'.active_jobs),
      )

  pub store_schedule-IsValid :
      (entry : ScheduleEntry) (s : Store)
      → services.from_crontab entry.cron ≡ ok tt
      → IsValid s
      → ((store_schedule services entry s).0 ≡ ok tt) × IsValid (store_schedule services entry s).1
  unfolding store_schedule
  store_schedule-IsValid entry s valid (table, sync) =
      let (done, same, others) = add_schedule-lookup entry (upserted services entry s) valid in
      (
        ground (arith, up.commits),
        (
          ground (arith, up.commits, IsTable-insert entry s.rows table),
          λ id.
              ground
                (arith, up.commits, others id, sync id, lookup-insert entry.id id entry s.rows),
        ),
      )

  pub drop_schedule-IsValid :
      (id : String) (s : Store)
      → IsValid s
      → ((drop_schedule services id s).0 ≡ ok tt) × IsValid (drop_schedule services id s).1
  unfolding drop_schedule
  drop_schedule-IsValid id s (table, sync) =
      let (done, same, others) = remove_schedule-lookup id (deleted services id s) in
      (
        ground (arith, up.commits),
        (
          ground (arith, up.commits, IsTable-erase id s.rows table),
          λ j. ground (arith, up.commits, others j, sync j, lookup-erase id j s.rows),
        ),
      )

  upsert_with-IsValid :
      (op : ScheduleOp) (params : Result Json) (s : Store)
      → IsValid s
      → IsValid (upsert_with services op params s).1
  upsert_with-IsValid op (raised x) s h = h
  upsert_with-IsValid op (ok params) s h = elim (Result-cases (services.from_crontab op.cron)) [
    | inl (_, valid) ↦
        ground (arith, store_schedule-IsValid (entry_of services op params) s valid h)
    | inr (x, invalid) ↦ ground arith
  ]

  apply_op-IsValid :
      (op : ScheduleOp) (kind : Wire.ScheduleOpType) (s : Store)
      → IsValid s
      → IsValid (apply_op services op kind s).1
  apply_op-IsValid op Wire.ScheduleOpType.upsert s h =
      ground (arith, upsert_with-IsValid op (params_of services op) s h)
  apply_op-IsValid op Wire.ScheduleOpType.delete s h =
      ground (arith, drop_schedule-IsValid op.schedule_id s h)
  apply_op-IsValid op Wire.ScheduleOpType.unspecified s h = h
  apply_op-IsValid op (Wire.ScheduleOpType.unknown n) s h = h

  pub process_schedule_op-IsValid :
      (op : ScheduleOp) (s : Store) → IsValid s → IsValid (process_schedule_op services op s).1
  unfolding process_schedule_op
  process_schedule_op-IsValid op s h = ground (arith, apply_op-IsValid op op.op s h)
