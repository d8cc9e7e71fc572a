-- ===== src/Platform/Manifest.antt =====
-- `AppProcess._load_manifest` of services/platform_controller/main.py, and what the supervisor asks
-- of the host.
use belgrade_os.Base.{ℕ, String, ◌<>◌, ◌==◌, Bool, Option, none, some, List, if◌then◌else◌}
use belgrade_os.Base.Dict.{Dict}
use belgrade_os.Wire.{Json}
use belgrade_os.World.{Exn, Result, ok, raised, value_error, json_decode_error}
use belgrade_os.Results.{◌>>=◌}

pub data Runtime : Type 0 where
  platform_process container : Runtime

-- The fields of `_AppManifest` that the controller reads; `notifications` is its `driver`.
pub record AppManifest : Type 0 where
  pub app_id : String
  pub runtime : Runtime
  pub notifications : Option (Option String)
  pub mcp : Bool

-- manifest.json as a program finds it: not there, not readable, or a text
pub data ManifestFile : Type 0 where
  absent : ManifestFile
  unreadable : Exn → ManifestFile
  contents : String → ManifestFile

-- The file system, the environment, `json.loads`, pydantic's `model_validate` and `Popen`, during
-- one call of the supervisor. `launch` opens the log file and starts the process, or raises.
pub record Host : Type 0 where
  pub manifest_file : String → ManifestFile
  pub has_main : String → Bool
  pub directories : Option (List String)
  pub loads : String → Result Json
  pub validate : Json → Result AppManifest
  pub environ : Dict String
  pub bridge_url : String
  pub db_url : String
  pub show : ℕ → String
  pub launch : String → Dict String → Result ℕ
  pub has_exited : ℕ → Bool

-- `except json.JSONDecodeError`: raised again as a ValueError
abbrev as_value_error : Result Json → Result Json
as_value_error (ok v) = ok v
as_value_error (raised x) = elim (x.fault) [
  | json_decode_error ↦ raised (record { fault = value_error; text = "not valid JSON: " <> x.text })
  | _ ↦ raised x
]

-- `except ValidationError`, the only exception of `model_validate`
abbrev invalid_as_value_error : Result AppManifest → Result AppManifest
invalid_as_value_error (ok m) = ok m
invalid_as_value_error (raised x) =
    raised (record { fault = value_error; text = "failed schema validation: " <> x.text })

abbrev check_name : String → AppManifest → Result (Option AppManifest)
check_name app_id manifest =
    if manifest.app_id == app_id
    then ok (some manifest)
    else raised (record { fault = value_error; text = "app_id does not match directory name" })

module _ (host : Host) where
  parse_manifest : String → String → Result (Option AppManifest)
  parse_manifest app_id source = do
    value ← as_value_error (host.loads source)
    manifest ← invalid_as_value_error (host.validate value)
    check_name app_id manifest

  unfoldable pub load_manifest : String → Result (Option AppManifest)
  unfolding parse_manifest
  load_manifest app_id = elim (host.manifest_file app_id) [
    | absent ↦ ok none
    | unreadable x ↦ raised x
    | contents source ↦ parse_manifest app_id source
  ]
