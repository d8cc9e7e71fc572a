-- ===== src/Platform/Schedules/Apps.antt =====
-- The deletion of an app's schedules, and every operation in one statement.
use belgrade_os.Base.{
  String, ◌==◌, ◌≡◌, refl, eq_iff, Bool, ◌||◌, false, none, some, List, [], ◌∷◌, if◌then◌else◌,
  arith,
}
use belgrade_os.Base.Dict.{Dict, lookup}
use belgrade_os.Wire.{ScheduleOp}
use belgrade_os.World.{ok}
use belgrade_os.Platform.Schedules.{
  ScheduleEntry, Store, Services, remove_schedule, process_schedule_op, create_schedule,
  delete_schedule, ids_of_app, without_app, remove_schedules, delete_app_schedules,
}
use belgrade_os.Platform.Schedules.Sync.{
  IsValid, IsTable, AreUp, remove_schedule-lookup, process_schedule_op-IsValid,
  store_schedule-IsValid, drop_schedule-IsValid,
}

unfoldable elem : String → List String → Bool
elem j [] = false
elem j (id ∷ ids) = id == j || elem j ids

module _ (services : Services) where
  without_app-absent :
      (app_id id : String) (rows : Dict ScheduleEntry)
      → lookup id rows ≡ none
      → (elem id (ids_of_app services app_id rows) ≡ false)
        × (lookup id (without_app services app_id rows) ≡ none)
  unfolding ids_of_app without_app lookup elem
  without_app-absent app_id id [] h = (refl, refl)
  without_app-absent app_id id ((j, row) ∷ rows) h =
      ground (arith, without_app-absent app_id id rows, eq_iff j id)

  -- The deleted rows are those whose ids were selected.
  without_app-lookup :
      (app_id id : String) (rows : Dict ScheduleEntry)
      → IsTable rows
      → lookup id (without_app services app_id rows)
        ≡ (if elem id (ids_of_app services app_id rows) then none else lookup id rows)
  unfolding ids_of_app without_app lookup elem
  without_app-lookup app_id id [] h = refl
  without_app-lookup app_id id ((j, row) ∷ rows) h =
      ground
        (arith, without_app-lookup app_id id rows, without_app-absent app_id id rows, eq_iff j id)

  -- … and those are the rows of the app.
  ids_of_app_iff :
      (app_id id : String) (row : ScheduleEntry) (rows : Dict ScheduleEntry)
      → IsTable rows
      → lookup id rows ≡ some row
      → elem id (ids_of_app services app_id rows) ≡ (row.app_id == app_id)
  unfolding ids_of_app lookup elem
  ids_of_app_iff app_id id row [] h found = cc
  ids_of_app_iff app_id id row ((j, head) ∷ rows) h found =
      ground
        (arith, ids_of_app_iff app_id id row rows, without_app-absent app_id id rows, eq_iff j id)

  IsTable-without_app :
      (app_id : String) (rows : Dict ScheduleEntry)
      → IsTable rows
      → IsTable (without_app services app_id rows)
  unfolding without_app
  IsTable-without_app app_id [] h = tt
  IsTable-without_app app_id ((j, row) ∷ rows) h =
      ground (arith, IsTable-without_app app_id rows, without_app-absent app_id j rows)

  module _ (up : AreUp services) where
    remove_schedules-lookup :
        (ids : List String) (s : Store)
        → ((remove_schedules services ids s).0 ≡ ok tt)
          × ((remove_schedules services ids s).1.rows ≡ s.rows)
          × ((j : String)
              → lookup j (remove_schedules services ids s).1.active_jobs
                ≡ (if elem j ids then none else lookup j s.active_jobs))
    unfolding remove_schedules elem
    remove_schedules-lookup [] s = (refl, refl, λ j. refl)
    remove_schedules-lookup (id ∷ ids) s =
        let (done, same, others) = remove_schedule-lookup services up id s in
        let (done', same', others') =
          remove_schedules-lookup ids (remove_schedule services id s).1 in
        (
          ground (arith, done, done'),
          ground (arith, done, same, same'),
          λ j. ground (arith, done, others j, others' j),
        )

    -- `DELETE /apps/{app_id}/schedules`
    delete_app_schedules-IsValid :
        (app_id : String) (s : Store)
        → IsValid s
        → let (r, s') = delete_app_schedules services app_id s in
          (r ≡ ok tt)
          × IsValid s'
          × ((id : String) (row : ScheduleEntry)
              → lookup id s.rows ≡ some row
              → lookup id s'.rows ≡ (if row.app_id == app_id then none else some row))
    unfolding delete_app_schedules
    delete_app_schedules-IsValid app_id s (table, sync) =
        let ids = ids_of_app services app_id s.rows in
        let (done, same, others) = remove_schedules-lookup ids s in
        (
          ground (arith, done, up.commits),
          (
            ground (arith, done, same, up.commits, IsTable-without_app app_id s.rows table),
            λ id. ground (
              arith,
              done,
              same,
              up.commits,
              others id,
              sync id,
              without_app-lookup app_id id s.rows table,
            ),
          ),
          λ id row found. ground (
            arith,
            done,
            same,
            up.commits,
            without_app-lookup app_id id s.rows table,
            ids_of_app_iff app_id id row s.rows table found,
          ),
        )

    -- PostgreSQL and the scheduler library answer every call. Then every operation keeps the table
    -- and the jobs the same: a schedule operation from the stream whatever it holds, the creation of
    -- a schedule with a valid cron, the deletion of a schedule, and the deletion of an app's
    -- schedules, which takes the rows of that app and leaves the others.
    pub operations-IsInSync :
        (s : Store)
        → IsValid s
        → ((op : ScheduleOp) → IsValid (process_schedule_op services op s).1)
          × ((entry : ScheduleEntry)
              → services.from_crontab entry.cron ≡ ok tt
              → IsValid (create_schedule services entry s).1)
          × ((id : String) → IsValid (delete_schedule services id s).1)
          × ((app_id : String)
              → let s' = (delete_app_schedules services app_id s).1 in
                IsValid s'
                × ((id : String) (row : ScheduleEntry)
                    → lookup id s.rows ≡ some row
                    → lookup id s'.rows ≡ (if row.app_id == app_id then none else some row)))
    unfolding create_schedule delete_schedule
    operations-IsInSync s h = (
      λ op. process_schedule_op-IsValid services up op s h,
      λ entry valid. (store_schedule-IsValid services up entry s valid h).1,
      λ id. (drop_schedule-IsValid services up id s h).1,
      λ app_id. let (_, valid, rows) = delete_app_schedules-IsValid app_id s h in (valid, rows),
    )
