-- ===== src/Platform/Schedules/Startup.antt =====
-- The table is loaded into the scheduler at startup.
use belgrade_os.Base.{
  String, ◌≡◌, ◌↔◌, inl, inr, Option-cases, Bool-cases, true, refl, eq_iff, Option, none, some, [],
  ◌∷◌, arith,
}
use belgrade_os.Base.Dict.{Dict, lookup, lookup-nil}
use belgrade_os.Wire.{is_obj}
use belgrade_os.World.{Result-cases, ok}
use belgrade_os.Platform.Schedules.{
  ScheduleEntry, Store, Services, add_schedule, load_row, load_schedules,
}
use belgrade_os.Platform.Schedules.Sync.{IsTable, IsValid, AreUp, add_schedule-lookup}

-- The parameters of every row are an object, and its cron is one that the library parses.
abbrev pub AreLoadable : Services → Dict ScheduleEntry → Type 0
AreLoadable services [] = Unit
AreLoadable services ((_, row) ∷ rows) =
    (is_obj row.params ≡ true)
    × (services.from_crontab row.cron ≡ ok tt)
    × AreLoadable services rows

named : (id : String) (row : ScheduleEntry) → row.id ≡ id → record row { id = id } ≡ row
named id row e = rw⁻¹ e refl

module _ (services : Services) where
  -- The row where there is one, else the job of before.
  loaded : Option ScheduleEntry → Option ScheduleEntry → Option ScheduleEntry
  loaded none job = job
  loaded (some row) job = some row

  load_schedules-lookup :
      (rows : Dict ScheduleEntry) (s : Store)
      → AreUp services
      → IsTable rows
      → AreLoadable services rows
      → ((load_schedules services rows s).0 ≡ ok tt)
        × ((load_schedules services rows s).1.rows ≡ s.rows)
        × ((j : String)
            → lookup j (load_schedules services rows s).1.active_jobs
              ≡ loaded (lookup j rows) (lookup j s.active_jobs))
  unfolding load_schedules load_row lookup loaded
  load_schedules-lookup [] s up table valid = (refl, refl, λ j. refl)
  load_schedules-lookup ((id, row) ∷ rows) s up (name, new, table) (object, valid, crons) =
      let entry = record row { id = id } in
      let (done, same, others) = add_schedule-lookup services up entry s valid in
      let (done', same', others') =
        load_schedules-lookup rows (load_row services entry s).1 up table crons in
      (
        ground (arith, object, done, done'),
        ground (arith, object, done, same, same'),
        λ j. ground (arith, object, done, others j, others' j, named id row name, eq_iff id j),
      )

  add_schedule-cron :
      (entry : ScheduleEntry) (s : Store)
      → (add_schedule services entry s).0 ≡ ok tt
      → services.from_crontab entry.cron ≡ ok tt
  unfolding add_schedule
  add_schedule-cron entry s done = elim (Result-cases (services.from_crontab entry.cron)) [
    | inl (_, valid) ↦ valid
    | inr (x, invalid) ↦ ground (arith)
  ]

  load_row-Loadable :
      (entry : ScheduleEntry) (s : Store)
      → (load_row services entry s).0 ≡ ok tt
      → (is_obj entry.params ≡ true) × (services.from_crontab entry.cron ≡ ok tt)
  unfolding load_row
  load_row-Loadable entry s done = elim (Bool-cases (is_obj entry.params)) [
    | inl e ↦ (e, ground (arith, e, add_schedule-cron entry s))
    | inr e ↦ absurd (ground (arith, e))
  ]

  load_schedules-Loadable :
      (rows : Dict ScheduleEntry) (s : Store)
      → (load_schedules services rows s).0 ≡ ok tt
      → AreLoadable services rows
  unfolding load_schedules
  load_schedules-Loadable [] s done = tt
  load_schedules-Loadable ((id, row) ∷ rows) s done =
      let entry = record row { id = id } in
      ground (
        arith,
        load_row-Loadable entry s,
        load_schedules-Loadable rows (load_row services entry s).1,
      )

  abbrev booted : Dict ScheduleEntry → Store
  booted rows = record { rows = rows; active_jobs = [] }

  -- At startup, with a well-formed table and no job, while PostgreSQL commits and the scheduler library
  -- takes and gives up every job: the loading succeeds exactly if the parameters of every row are an
  -- object and its cron is one that the library parses, and then every row has its job and there is no other job.
  pub load_schedules_iff :
      (rows : Dict ScheduleEntry)
      → AreUp services
      → IsTable rows
      → let (r, s') = load_schedules services rows (booted rows) in
        ((r ≡ ok tt) ↔ AreLoadable services rows) × (AreLoadable services rows → IsValid s')
  unfolding loaded
  load_schedules_iff rows up table = (
    (
      λ done. load_schedules-Loadable rows (booted rows) done,
      λ crons. (load_schedules-lookup rows (booted rows) up table crons).0,
    ),
    λ crons.
        let (done, same, others) = load_schedules-lookup rows (booted rows) up table crons in
        (
          rw same table,
          λ j. ground (
            arith,
            same,
            others j,
            lookup-nil {V = ScheduleEntry} j,
            Option-cases (lookup j rows),
          ),
        ),
  )
