-- ===== src/Platform/Supervisor.antt =====
-- `AppProcess` and `AppSupervisor` of services/platform_controller/main.py.
pub mod Ports
pub mod Restarts
use belgrade_os.Base.{
  ℕ, suc, ◌+◌, String, ◌<>◌, ◌==◌, Bool, true, false, ◌&&◌, ◌||◌, Option, none, some, List, [], ◌∷◌,
  if◌then◌else◌, is_empty, or_text,
}
use belgrade_os.Base.Dict.{Dict, lookup, contains, insert, erase}
use belgrade_os.Wire.{Json, str, obj, get_member}
use belgrade_os.World.{
  Exn, Fault, Result, ok, raised, value_error, json_decode_error, unicode_decode_error, os_error,
  attribute_error,
}
use belgrade_os.Platform.Manifest.{
  AppManifest, ManifestFile, absent, unreadable, contents, Host, load_manifest,
}

pub record AppProcess : Type 0 where
  pub app_id : String
  pub port : ℕ
  pub process : Option ℕ

pub data Action : Type 0 where
  -- app, environment
  spawn : String → Dict String → Action
  -- SIGTERM to the group of a process
  terminate : ℕ → Action

-- `actions` is what was done to processes, the newest first.
pub record Supervisor : Type 0 where
  pub running_apps : Dict AppProcess
  pub next_port : ℕ
  pub actions : List Action

abbrev pub init : Supervisor
init = record { running_apps = []; next_port = 9001; actions = [] }

-- `os.getenv(name, default)`
abbrev getenv : Dict String → String → String → String
getenv environ name default = elim (lookup name environ) [ none ↦ default | some v ↦ v ]

abbrev manifest_driver : Option AppManifest → String
manifest_driver none = ""
manifest_driver (some m) = elim (m.notifications) [ some (some driver) ↦ driver | _ ↦ "" ]

abbrev wants_mcp : Option AppManifest → Bool
wants_mcp none = false
wants_mcp (some m) = m.mcp

-- `except ValueError`: the decoding errors of JSON and of UTF-8 are ValueErrors.
abbrev pub is_value_error : Fault → Bool
is_value_error value_error = true
is_value_error json_decode_error = true
is_value_error unicode_decode_error = true
is_value_error _ = false

module _ (host : Host) where
  -- The driver of the manifest, or else the one of the environment.
  unfoldable pub notification_driver : Option AppManifest → String
  unfolding lookup
  notification_driver manifest =
      or_text (manifest_driver manifest) (getenv host.environ "BEG_OS_NOTIFICATION_DRIVER" "ntfy")

  unfoldable pub app_redis_url : String
  unfolding lookup
  app_redis_url =
      or_text (getenv host.environ "APP_REDIS_URL" "")
        (getenv host.environ "BEG_OS_REDIS_URL" "redis://localhost:6379")

  -- the environment of the child
  unfoldable pub child_env : String → ℕ → Option AppManifest → Dict String
  unfolding insert erase
  child_env app_id port manifest =
      let env = insert "BEG_OS_APP_ID" app_id host.environ in
      let env = insert "BEG_OS_CALLBACK_URL" ("http://localhost:" <> host.show port) env in
      let env = insert "BEG_OS_BRIDGE_URL" host.bridge_url env in
      let env = insert "BEG_OS_DB_URL" host.db_url env in
      let env = insert "BEG_OS_REDIS_URL" app_redis_url env in
      let env = insert "BEG_OS_NOTIFICATION_DRIVER" (notification_driver manifest) env in
      if wants_mcp manifest
      then insert "BEG_OS_MCP_ENABLED" "true" env
      else erase "BEG_OS_MCP_ENABLED" env

  -- AppProcess.stop: whatever killpg and wait raise is logged
  abbrev stop_actions : Option ℕ → List Action → List Action
  stop_actions none actions = actions
  stop_actions (some pid) actions = terminate pid ∷ actions

  unfoldable pub stop_app : String → Supervisor → Supervisor
  unfolding lookup erase
  stop_app app_id s = elim (lookup app_id s.running_apps) [
    | none ↦ s
    | some proc ↦ record s {
      running_apps = erase app_id s.running_apps;
      actions = stop_actions proc.process s.actions;
    }
  ]

  -- `data.get("runtime") == "container"`; what is no dict has no `get`
  abbrev names_container : Json → Result Bool
  names_container (obj ms) = elim (get_member "runtime" ms) [
    | some (str r) ↦ ok (r == "container")
    | _ ↦ ok false
  ]
  names_container _ = raised (record { fault = attribute_error; text = "no attribute 'get'" })

  -- `except (json.JSONDecodeError, OSError): pass`
  abbrev passed : Exn → Result Bool
  passed x = elim (x.fault) [ json_decode_error ↦ ok false | os_error ↦ ok false | _ ↦ raised x ]

  abbrev names_container_text : Result Json → Result Bool
  names_container_text (ok v) = names_container v
  names_container_text (raised x) = passed x

  abbrev is_container_file : ManifestFile → Result Bool
  is_container_file absent = ok false
  is_container_file (unreadable x) = passed x
  is_container_file (contents source) = names_container_text (host.loads source)

  unfoldable pub is_container : String → Result Bool
  unfolding get_member
  is_container app_id = is_container_file (host.manifest_file app_id)

  abbrev pub entry : String → ℕ → ℕ → AppProcess
  entry app_id port pid = record { app_id = app_id; port = port; process = some pid }

  -- what follows `try: await app_process.start()`
  abbrev enter : String → Dict String → Result ℕ → Supervisor → Result (Unit {0}) × Supervisor
  enter app_id env (ok pid) s = (
    ok tt,
    record {
      running_apps = insert app_id (entry app_id s.next_port pid) s.running_apps;
      next_port = s.next_port + 1;
      actions = spawn app_id env ∷ s.actions;
    },
  )
  enter app_id env (raised x) s = (if is_value_error x.fault then ok tt else raised x, s)

  abbrev start_process :
      String → Result (Option AppManifest) → Supervisor → Result (Unit {0}) × Supervisor
  start_process app_id (ok manifest) s =
      let env = child_env app_id s.next_port manifest in enter app_id env (host.launch app_id env) s
  start_process app_id (raised x) s = (if is_value_error x.fault then ok tt else raised x, s)

  abbrev start_stopped : String → Result Bool → Supervisor → Result (Unit {0}) × Supervisor
  start_stopped app_id (ok true) s = (ok tt, s)
  start_stopped app_id (ok false) s = start_process app_id (load_manifest host app_id) s
  start_stopped app_id (raised x) s = (raised x, s)

  -- AppSupervisor.start_app: an app that runs is stopped first.
  unfoldable pub start_app : String → Supervisor → Result (Unit {0}) × Supervisor
  start_app app_id s = start_stopped app_id (is_container app_id) (stop_app app_id s)

  -- `for app_id in …: await self.start_app(app_id)`; an exception leaves the loop
  unfoldable pub start_all : List String → Supervisor → Result (Unit {0}) × Supervisor
  start_all [] s = (ok tt, s)
  start_all (app_id ∷ apps) s =
      let (r, s') = start_app app_id s in
      let rest = start_all apps s' in elim r [ ok _ ↦ rest | raised x ↦ (raised x, s') ]

  abbrev has_manifest : ManifestFile → Bool
  has_manifest absent = false
  has_manifest _ = true

  unfoldable pub startable : List String → List String
  startable [] = []
  startable (name ∷ names) =
      let rest = startable names in
      if host.has_main name || has_manifest (host.manifest_file name) then name ∷ rest else rest

  abbrev start_found : Option (List String) → Supervisor → Result (Unit {0}) × Supervisor
  start_found none s = (ok tt, s)
  start_found (some names) s = start_all (startable names) s

  -- `directories` is `none` where the root of the apps does not exist.
  unfoldable pub discover_and_start : Supervisor → Result (Unit {0}) × Supervisor
  discover_and_start s = start_found host.directories s

  abbrev is_dead : AppProcess → Bool
  is_dead proc = elim (proc.process) [ none ↦ false | some pid ↦ host.has_exited pid ]

  unfoldable pub dead_apps : Dict AppProcess → List String
  dead_apps [] = []
  dead_apps ((app_id, proc) ∷ apps) =
      let rest = dead_apps apps in if is_dead proc then app_id ∷ rest else rest

  -- AppSupervisor._watch_tick
  unfoldable pub watch_tick : Supervisor → Result (Unit {0}) × Supervisor
  watch_tick s = start_all (dead_apps s.running_apps) s

-- AppSupervisor.watch, with what the host answers in each turn; an exception ends it.
unfoldable pub watch : List Host → Supervisor → Result (Unit {0}) × Supervisor
watch [] s = (ok tt, s)
watch (host ∷ hosts) s =
    let (r, s') = watch_tick host s in
    let rest = watch hosts s' in elim r [ ok _ ↦ rest | raised x ↦ (raised x, s') ]
