-- ===== src/Platform/Boot.antt =====
-- `startup_event` of services/platform_controller/main.py.
mod Tests
use belgrade_os.Base.{
  String, ◌≡◌, subst, ◌⊎◌, inl, inr, refl, true, false, Option, none, some, List, [], ◌∷◌, arith,
}
use belgrade_os.Base.Dict.{Dict, lookup}
use belgrade_os.World.{Exn, Result, Result-cases, ok, raised}
use belgrade_os.Prog.{Prog, pure, lift, ◌>>=◌, ◌>>◌, Env, History}
use belgrade_os.Calls.{running}
use belgrade_os.Platform.Manifest.{Host}
use belgrade_os.Platform.Supervisor.{Supervisor, init, discover_and_start}
use belgrade_os.Platform.Supervisor.Ports
use belgrade_os.Platform.Supervisor.Ports.{operations-IsValid}
use belgrade_os.Platform.Schedules.{ScheduleEntry, Store, Services, load_schedules}
use belgrade_os.Platform.Schedules.Sync
use belgrade_os.Platform.Schedules.Sync.{IsTable, AreUp}
use belgrade_os.Platform.Schedules.Startup.{AreLoadable, load_schedules_iff}
use belgrade_os.Platform.Permissions.{Permission, perms_key, group_rows, sync_users, sync_all}
use belgrade_os.Platform.Permissions.Grants.{granted, has_row, stored, Takes, sync_all-stored}

-- What the startup is answered: to the creation of the tables, to the start of the two schedulers, and
-- to the two selections.
pub record Answers : Type 0 where
  pub tables : Result (Unit {0})
  pub starts : Result (Unit {0})
  pub permissions : Result (List Permission)
  pub schedules : Result (Dict ScheduleEntry)

abbrev pub stopped : {A : Type 0} → Result (Unit {0}) → A → Result A
stopped (ok _) a = ok a
stopped (raised x) a = raised x

abbrev pub booted : Dict ScheduleEntry → Store
booted rows = record { rows = rows; active_jobs = [] }

-- The hash of a user who has a row holds the roles that the rows give; another one stays.
abbrev pub HasRoles : List Permission → String → History → History → Type 0
HasRoles perms user_id t t' =
    let hash = stored (perms_key user_id) t' in
    ((has_row user_id perms ≡ true)
      × (roles : Dict String) × (hash ≡ some roles)
      × ((field : String) → lookup field roles ≡ granted user_id field perms))
    ⊎ ((has_row user_id perms ≡ false) × (hash ≡ stored (perms_key user_id) t))

module _ (host : Host) (services : Services) (answers : Answers) where
  abbrev discovered : Result Supervisor
  discovered = let (r, s) = discover_and_start host init in stopped r s

  abbrev loaded : Dict ScheduleEntry → Result Store
  loaded rows = let (r, s) = load_schedules services rows (booted rows) in stopped r s

  -- up to the start of the three tasks
  unfoldable pub startup_event : Prog (Supervisor × Store)
  startup_event = do
    lift answers.tables
    supervisor ← lift discovered
    lift answers.starts
    sync_all answers.permissions
    rows ← lift answers.schedules
    store ← lift (loaded rows)
    pure (supervisor, store)

  sync_all_ok : (env : Env) (t : History) → (sync_all answers.permissions env t).0 ≡ ok tt
  unfolding sync_all running
  sync_all_ok env t =
      let selected : Prog Unit = (do
        rows ← lift answers.permissions
        sync_users (group_rows [] rows)) in
      elim (Result-cases (selected env t).0) [
        | inl (_, e) ↦ ground (arith, e)
        | inr (x, e) ↦ ground (arith, e)
      ]

  -- All that the startup needs.
  abbrev pub CanStart : Dict ScheduleEntry → Type 0
  CanStart rows =
      (answers.tables ≡ ok tt)
      × ((discover_and_start host init).0 ≡ ok tt)
      × (answers.starts ≡ ok tt)
      × AreLoadable services rows

  abbrev pub IsSynced : List Permission → History → History → Type 0
  IsSynced perms t t' = (user_id : String) → HasRoles perms user_id t t'

  -- While the database answers the two selections, with a well-formed table of schedules, PostgreSQL,
  -- the scheduler library and Redis answering: the startup fails, and something that it needs is
  -- missing, the tables, an app of the discovery, a scheduler, or of a schedule the parameters as an object or a cron that the library parses;
  -- or nothing is missing, the apps are in a well-formed table, every schedule has its job and no
  -- other job is there, and Redis holds the roles of the permissions.
  pub startup_event_outcome :
      (perms : List Permission) (rows : Dict ScheduleEntry)
      → answers.permissions ≡ ok perms
      → answers.schedules ≡ ok rows
      → IsTable rows
      → AreUp services
      → (env : Env) (t : History) → Takes env
      → let (r, t') = startup_event env t in
        ((x : Exn) × (r ≡ raised x) × ¬ (CanStart rows))
        ⊎ ((supervisor : Supervisor) × (store : Store) × (r ≡ ok (supervisor, store))
            × CanStart rows
            × Ports.IsValid supervisor
            × Sync.IsValid store
            × IsSynced perms t t')
  unfolding startup_event running
  startup_event_outcome perms rows permitted scheduled table up env t takes =
      let (succeeds, valid) = load_schedules_iff services rows up table in
      elim (Result-cases answers.tables) [
        | inr (x, e) ↦ inl (x, ground (arith, e), λ can. ground (arith, e, can.0))
        | inl (_, e) ↦ elim (Result-cases (discover_and_start host init).0) [
          | inr (x, f) ↦ inl (x, ground (arith, e, f), λ can. ground (arith, f, can.1))
          | inl (_, f) ↦ elim (Result-cases answers.starts) [
            | inr (x, g) ↦ inl (x, ground (arith, e, f, g), λ can. ground (arith, g, can.2))
            | inl (_, g) ↦ elim (Result-cases (load_schedules services rows (booted rows)).0) [
              | inr (x, k) ↦ inl (
                x,
                ground (arith, e, f, g, k, scheduled, sync_all_ok env t),
                λ can. ground (arith, k, succeeds.1 can.3),
              )
              | inl (_, k) ↦
                  let crons = succeeds.0 k in
                  let ends : startup_event env t ≡ (
                    ok (
                      (discover_and_start host init).1,
                      (load_schedules services rows (booted rows)).1,
                    ),
                    (sync_all answers.permissions env t).1,
                  ) =
                    ground (arith, e, f, g, k, scheduled, sync_all_ok env t) in
                  let kept : (sync_all (ok perms) env t).1 ≡ (startup_event env t).1 =
                    ground (arith, ends, permitted) in
                  inr (
                    (discover_and_start host init).1,
                    (load_schedules services rows (booted rows)).1,
                    ground (arith, ends),
                    (e, f, g, crons),
                    (operations-IsValid host init tt).2,
                    valid crons,
                    λ user_id.
                        subst (λ t'. HasRoles perms user_id t t') kept
                          (sync_all-stored perms user_id env t takes),
                  )
            ]
          ]
        ]
      ]
