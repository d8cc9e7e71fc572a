-- ===== src/Platform/Ephemeral/Cleanup.antt =====
-- What the run of a container touches, and what it leaves.
use belgrade_os.Base.{
  String, ◌<>◌, List, [], true, ◌≡◌, ◌⊎◌, Bool-cases, ◌&&◌, false, ◌∷◌, inl, inr, arith,
}
use belgrade_os.Wire.{Json}
use belgrade_os.World.{Cmd, Exn, Result-cases, ok, raised, ContainerEnd, exited, timed_out}
use belgrade_os.Prog.{Env, History}
use belgrade_os.Prog.Emits.{Extends, Emits}
use belgrade_os.Calls.{running}
use belgrade_os.Calls.Emits.{emits_calls}
use belgrade_os.Platform.AppId.{is_app_id}
use belgrade_os.Platform.Ephemeral.{
  Sandbox, work_dir, container_name, input_file, output_file, container_end, run_container,
  check_output, read_output, work, run_in, run,
}

-- What docker is to be asked for: no network, the seccomp profile, a read-only root, a user that is
-- not root, a small folder for temporary files, the working folder, and the app's folder to read.
abbrev pub restricted : String → String → String → String → List String
restricted profile folder task_id app_id =
    "--rm"
    ∷ "--name"
    ∷ ("beg-" <> task_id)
    ∷ "--network"
    ∷ "none"
    ∷ "--security-opt"
    ∷ ("seccomp=" <> profile)
    ∷ "--read-only"
    ∷ "--user"
    ∷ "1000:1000"
    ∷ "--tmpfs"
    ∷ "/tmp:size=32m,noexec,nosuid"
    ∷ "-v"
    ∷ (("/tmp/beg-" <> task_id) <> ":/workspace:rw")
    ∷ "-v"
    ∷ (folder <> ":/app:ro")
    ∷ ("beg-os-" <> app_id <> ":latest")
    ∷ "python3"
    ∷ "/app/main.py"
    ∷ []

module _ (sandbox : Sandbox) (task_id app_id : String) where
  -- The container with the restricted arguments, its removal by name, and the two files of its
  -- working folder.
  abbrev pub InSandbox : Cmd → Type 0
  InSandbox (Cmd.docker_run args) =
      args ≡ restricted sandbox.seccomp_profile (sandbox.app_dir app_id) task_id app_id
  InSandbox (Cmd.docker_rm name) = name ≡ container_name task_id
  InSandbox (Cmd.fs_write p _) = p ≡ input_file sandbox task_id
  InSandbox (Cmd.fs_exists p) = p ≡ output_file sandbox task_id
  InSandbox (Cmd.fs_read p) = p ≡ output_file sandbox task_id
  InSandbox _ = ⊥

  container_end-InSandbox :
      (end : ContainerEnd) → Emits InSandbox (container_end sandbox task_id end)
  unfolding container_end
  container_end-InSandbox (exited code stderr) = search emits_calls
  container_end-InSandbox timed_out = search emits_calls depth 8

  run_container-InSandbox : Emits InSandbox (run_container sandbox task_id app_id)
  unfolding run_container
  run_container-InSandbox = search (emits_calls, container_end-InSandbox) depth 8

  read_output-InSandbox : Emits InSandbox (read_output sandbox task_id)
  unfolding read_output check_output
  read_output-InSandbox = search emits_calls depth 10

  pub work-InSandbox :
      (input_data : Json) → Emits InSandbox (work sandbox task_id app_id input_data)
  unfolding work
  work-InSandbox input_data =
      search (emits_calls, run_container-InSandbox, read_output-InSandbox) depth 8

  -- Invalid ids make no call. Else the working folder is created; if that raises, nothing follows.
  -- Else, whatever the file system and docker answer, the run makes calls in the sandbox alone: a
  -- container with the restricted arguments written out above, and the files for its input and
  -- output; and at last it removes the working folder.
  pub run_cleans :
      (input_data : Json) (env : Env) (t : History)
      → let t' = (run sandbox task_id app_id input_data env t).1 in
        let mkdirs = Cmd.fs_mkdirs (work_dir task_id) in
        (((is_app_id task_id && is_app_id app_id) ≡ false) × (t' ≡ t))
        ⊎ (((is_app_id task_id && is_app_id app_id) ≡ true)
            × ((x : Exn) × (t' ≡ (mkdirs, raised x) ∷ t)))
        ⊎ ((between : History) × ((is_app_id task_id && is_app_id app_id) ≡ true)
            × Extends InSandbox ((mkdirs, ok tt) ∷ t) between
            × (t'
                ≡ (Cmd.rmtree (work_dir task_id), env between (Cmd.rmtree (work_dir task_id)))
                  ∷ between))
  unfolding run run_in running
  run_cleans input_data env t = elim (Bool-cases (is_app_id task_id && is_app_id app_id)) [
    | inr e ↦ inl (e, ground arith)
    | inl e ↦ elim (Result-cases (env t (Cmd.fs_mkdirs (work_dir task_id)))) [
      | inr (x, f) ↦ inr (inl (e, (x, ground arith)))
      | inl (tt, f) ↦
          let t₁ : History = (Cmd.fs_mkdirs (work_dir task_id), ok tt) ∷ t in
          inr (
            inr (
              (work sandbox task_id app_id input_data env t₁).1,
              e,
              (work-InSandbox input_data).at env t₁,
              ground arith,
            ))
    ]
  ]
