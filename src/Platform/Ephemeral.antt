-- ===== src/Platform/Ephemeral.antt =====
-- services/platform_controller/ephemeral_runner.py: one untrusted call in a container of its own.
pub mod Cleanup
use belgrade_os.Base.{
  String, ◌<>◌, ◌&&◌, Bool, true, false, List, [], ◌∷◌, if◌then◌else◌, ltb, length,
}
use belgrade_os.Base.Int.{ℤ, pos, leb_ℤ}
use belgrade_os.Base.Text.{Bytes, encode}
use belgrade_os.Wire.{Json, is_obj}
use belgrade_os.World.{
  Exn, Fault, Result, ok, raised, Cmd, ContainerEnd, exited, timed_out, value_error, runtime_error,
  timeout_error, output_validation_error, json_decode_error,
}
use belgrade_os.Prog.{Prog, pure, raise, lift, ask, try_except, try_finally, ◌>>=◌, ◌>>◌}
use belgrade_os.Calls.{fs_mkdirs, fs_write, fs_exists, fs_read, docker_run, docker_rm}
use belgrade_os.Platform.AppId.{is_app_id}

-- What the runner is given, and what the libraries answer: `apps_root / app_id`, whether it resolves
-- to a path below the root, `json.dumps`, `json.loads` of bytes, the text of a failed container, and
-- `repr` of a text.
pub record Sandbox : Type 0 where
  pub seccomp_profile : String
  pub app_dir : String → String
  pub relative_to_root : String → Result (Unit {0})
  pub dumps : Json → String
  pub loads_bytes : Bytes → Result Json
  pub exit_text : ℤ → Bytes → String
  pub repr : String → String

abbrev pub work_dir : String → String
work_dir task_id = "/tmp/beg-" <> task_id

abbrev pub container_name : String → String
container_name task_id = "beg-" <> task_id

abbrev fail : {A : Type 0} → Fault → String → Prog A
fail fault text = raise (record { fault = fault; text = text })

abbrev is_zero : ℤ → Bool
is_zero code = leb_ℤ code (pos 0) && leb_ℤ (pos 0) code

module _ (sandbox : Sandbox) where
  abbrev pub container_args : String → String → List String
  container_args task_id app_id =
      "--rm"
      ∷ "--name"
      ∷ container_name task_id
      ∷ "--network"
      ∷ "none"
      ∷ "--security-opt"
      ∷ ("seccomp=" <> sandbox.seccomp_profile)
      ∷ "--read-only"
      ∷ "--user"
      ∷ "1000:1000"
      ∷ "--tmpfs"
      ∷ "/tmp:size=32m,noexec,nosuid"
      ∷ "-v"
      ∷ (work_dir task_id <> ":/workspace:rw")
      ∷ "-v"
      ∷ (sandbox.app_dir app_id <> ":/app:ro")
      ∷ ("beg-os-" <> app_id <> ":latest")
      ∷ "python3"
      ∷ "/app/main.py"
      ∷ []

  -- What `asyncio.wait_for` makes of the end of the container. Where the limit passes, the container
  -- is removed, whatever that raises. (The docker client that is then left is killed; that is part of
  -- the call `docker_run`, as is the start of the client.)
  unfoldable pub container_end : String → ContainerEnd → Prog Unit
  container_end task_id (exited code stderr) =
      if is_zero code then pure tt else fail runtime_error (sandbox.exit_text code stderr)
  container_end task_id timed_out = do
    try_except (docker_rm (container_name task_id)) (λ exc. pure tt)
    fail timeout_error ""

  -- `except ValueError` around the check of the folder
  abbrev escaping : Result (Unit {0}) → Result (Unit {0})
  escaping (ok _) = ok tt
  escaping (raised x) = elim (x.fault) [
    | value_error ↦ raised (record { fault = value_error; text = "app_id escapes apps_root" })
    | _ ↦ raised x
  ]

  unfoldable pub run_container : String → String → Prog Unit
  run_container task_id app_id = do
    lift (escaping (sandbox.relative_to_root app_id))
    end ← docker_run (container_args task_id app_id)
    container_end task_id end

  abbrev as_output : Result Json → Result Json
  as_output (ok v) =
      if is_obj v
      then ok v
      else raised
          (record { fault = output_validation_error; text = "output.json must be a JSON object" })
  as_output (raised x) = elim (x.fault) [
    | json_decode_error ↦
        raised (record { fault = output_validation_error; text = "output.json not valid JSON" })
    | _ ↦ raised x
  ]

  unfoldable pub check_output : Bytes → Prog Json
  check_output content =
      if ltb 1000000 (length content)
      then fail output_validation_error "output.json too large"
      else lift (as_output (sandbox.loads_bytes content))

  abbrev pub output_file : String → String
  output_file task_id = work_dir task_id <> "/output.json"

  abbrev pub input_file : String → String
  input_file task_id = work_dir task_id <> "/input.json"

  unfoldable pub read_output : String → Prog Json
  read_output task_id = do
    exists ← fs_exists (output_file task_id)
    if exists
        then (do content ← fs_read (output_file task_id); check_output content)
        else fail output_validation_error "output.json not created by container"

  unfoldable pub work : String → String → Json → Prog Json
  work task_id app_id input_data = do
    fs_write (input_file task_id) (encode (sandbox.dumps input_data))
    run_container task_id app_id
    read_output task_id

  unfoldable pub run_in : String → String → Json → Prog Json
  run_in task_id app_id input_data =
      try_finally (work task_id app_id input_data) (ask (Cmd.rmtree (work_dir task_id)))

  -- EphemeralRunner.run
  unfoldable pub run : String → String → Json → Prog Json
  run task_id app_id input_data =
      if is_app_id task_id
      then (if is_app_id app_id
          then fs_mkdirs (work_dir task_id) >> run_in task_id app_id input_data
          else fail value_error "invalid app_id")
      else fail value_error "invalid task_id"
