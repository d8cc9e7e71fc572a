-- ===== src/Platform/Tests.antt =====
-- The supervisor of apps and the app ids at concrete inputs.
use belgrade_os.Base.{
  ◌≡◌, ◌⊎◌, ◌↔◌, ◌==◌, ◌≤◌, ℕ, if◌then◌else◌, refl, true, false, String, Option, none, some, List,
  [], ◌∷◌, length, is_empty, arith, nat_eq,
}
use belgrade_os.Base.Dict.{Dict, lookup}
use belgrade_os.Base.Text.{codes}
use belgrade_os.Wire.{Json, arr, nil, str, obj, end, member}
use belgrade_os.World.{Result, ok}
use belgrade_os.Platform.AppId.{match_app_id, match_id, match_app_id_iff, IsMatched}
use belgrade_os.Platform.Manifest.{platform_process, ManifestFile, absent, contents, Host}
use belgrade_os.Platform.Supervisor.{
  Supervisor, spawn, init, entry, stop_app, start_app, discover_and_start, watch_tick, watch,
}
use belgrade_os.Platform.Schedules.{Services}
use belgrade_os.Platform.Api.{Controller, reload_app, list_apps, refused, handle, handle-guarded}
use belgrade_os.Platform.Supervisor.Ports.{IsValid, operations-IsValid}
use belgrade_os.Platform.Supervisor.Restarts.{Launched, start_app_outcome, watch_tick-alive}

abbrev manifest_file : String → ManifestFile
manifest_file name =
    if name == "list" then contents "[]" else if name == "box" then contents "{box}" else absent

abbrev loads : String → Result Json
loads source =
    if source == "{box}" then ok (obj (member "runtime" (str "container") end)) else ok (arr nil)

-- Two directories with a main.py, one whose manifest is no object, one container app; process 7 has
-- exited.
abbrev pub host : Host
host = record {
  manifest_file = manifest_file;
  has_main = λ _. true;
  directories = some ("notes" ∷ "tasks" ∷ []);
  loads = loads;
  validate = λ _.
      ok (record {
        app_id = "notes";
        runtime = platform_process;
        notifications = none;
        mcp = false;
      });
  environ = [];
  bridge_url = "http://b";
  db_url = "sqlite://";
  show = λ _. "9001";
  launch = λ app_id _. ok (if app_id == "notes" then 7 else 8);
  has_exited = λ pid. nat_eq pid 7;
}

-- What the discovery at startup leaves.
abbrev started_up : Supervisor
started_up = (discover_and_start host init).1

abbrev two_apps : Supervisor
two_apps = record {
  running_apps =
      ("notes", record { app_id = "notes"; port = 9001; process = some 7 })
      ∷ ("list", record { app_id = "list"; port = 9002; process = some 8 })
      ∷ [];
  next_port = 9003;
  actions = [];
}

two_apps-IsValid : IsValid two_apps
unfolding lookup
two_apps-IsValid = (
  refl,
  λ e. cc,
  ground arith,
  (λ e. absurd (omega arith), tt),
  refl,
  (refl, λ e. cc, ground arith, tt, refl, tt),
)

ids_in_order : match_app_id (codes "no/tes") ≡ false
unfolding match_app_id match_id
ids_in_order = refl

match_app_id_iff_example :
    (match_app_id (codes "notes") ≡ true)
    ↔ ((id : List ℕ) × (1 ≤ length id) × (length id ≤ 64) × IsMatched id (codes "notes"))
match_app_id_iff_example = match_app_id_iff (codes "notes")

operations-IsValid_example :
    ((app_id : String)
      → IsValid (start_app host app_id two_apps).1 × IsValid (stop_app host app_id two_apps))
    × ((hosts : List Host) → IsValid (watch hosts two_apps).1)
    × IsValid (discover_and_start host two_apps).1
operations-IsValid_example = operations-IsValid host two_apps two_apps-IsValid

start_app_outcome_example :
    let (r, s') = start_app host "notes" two_apps in
    (((lookup "notes" s'.running_apps ≡ none) × (s'.next_port ≡ 9003))
      ⊎ ((pid : ℕ) × (env : Dict String) × (r ≡ ok tt)
          × Launched host "notes" 9003 env pid
          × (s'.actions ≡ spawn "notes" env ∷ (stop_app host "notes" two_apps).actions)
          × (lookup "notes" s'.running_apps ≡ some (entry host "notes" 9003 pid))
          × (s'.next_port ≡ 9004)))
    × ((other : String)
        → ("notes" == other) ≡ false
        → lookup other s'.running_apps ≡ lookup other two_apps.running_apps)
start_app_outcome_example = start_app_outcome host "notes" two_apps

watch_tick-alive_example :
    lookup "list" (watch_tick host two_apps).1.running_apps
    ≡ some (record { app_id = "list"; port = 9002; process = some 8 })
unfolding lookup
watch_tick-alive_example =
    watch_tick-alive host two_apps "list"
      (record { app_id = "list"; port = 9002; process = some 8 }) two_apps-IsValid refl refl

abbrev services : Services
services = record {
  commit = ok tt;
  from_crontab = λ _. ok tt;
  add_job = λ _. ok tt;
  remove_job = λ _. ok tt;
  loads = λ _. ok (arr nil);
}

abbrev controller : Controller
controller = record { supervisor = two_apps; store = record { rows = []; active_jobs = [] } }

-- A wrong token.
handle-guarded_example :
    ((is_empty "secret" ≡ false) × (◌≡◌ {A = Option String} (some "guess") (some "secret")))
    ⊎ (((handle host services "secret" (some "guess") (reload_app "notes") controller).1
          ≡ controller)
        × ((reload_app "notes" ≡ list_apps)
            ⊎ ((status : ℕ) × ((handle host services "secret"
                    (some "guess")
                    (reload_app "notes")
                    controller).0
                  ≡ refused status))))
handle-guarded_example =
    handle-guarded host services "secret" (some "guess") (reload_app "notes") controller
