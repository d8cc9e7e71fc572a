-- ===== src/Platform/Boot/Tests.antt =====
-- The startup of the controller at concrete inputs.
use belgrade_os.Base.{◌≡◌, ◌⊎◌, refl, [], ◌∷◌}
use belgrade_os.World.{Exn, ok, raised}
use belgrade_os.Sample.{env}
use belgrade_os.Platform.Supervisor.{Supervisor}
use belgrade_os.Platform.Supervisor.Ports
use belgrade_os.Platform.Schedules.{Store}
use belgrade_os.Platform.Schedules.Sync
use belgrade_os.Platform.Permissions.{Permission}
use belgrade_os.Platform.Tests.{host}
use belgrade_os.Platform.Schedules.Tests.{services, one_row, up, one_row-IsTable}
use belgrade_os.Platform.Boot.{Answers, CanStart, IsSynced, startup_event, startup_event_outcome}

abbrev member_row : Permission
member_row = record { user_id = "u1"; app_id = "shopping"; bundle_id = "main"; role = "member" }

abbrev answers : Answers
answers = record {
  tables = ok tt;
  starts = ok tt;
  permissions = ok (member_row ∷ []);
  schedules = ok one_row;
}

startup_event_outcome_example :
    let (r, t') = startup_event host services answers env [] in
    ((x : Exn) × (r ≡ raised x) × ¬ (CanStart host services answers one_row))
    ⊎ ((supervisor : Supervisor) × (store : Store) × (r ≡ ok (supervisor, store))
        × CanStart host services answers one_row
        × Ports.IsValid supervisor
        × Sync.IsValid store
        × IsSynced host services answers (member_row ∷ []) [] t')
startup_event_outcome_example =
    startup_event_outcome host services answers (member_row ∷ []) one_row refl refl one_row-IsTable
      up env [] (λ key fields u. refl)
