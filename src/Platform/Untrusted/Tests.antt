-- ===== src/Platform/Untrusted/Tests.antt =====
-- The sandbox at concrete inputs.
use belgrade_os.Base.{◌<>◌, ◌≡◌, ◌⊎◌, ◌&&◌, refl, true, false, some, [], ◌∷◌}
use belgrade_os.Wire.{obj, end, null, ToolCall}
use belgrade_os.World.{Exn, ok, raised, Cmd}
use belgrade_os.Prog.{History}
use belgrade_os.Base.Text.{encode}
use belgrade_os.Prog.Emits.{Extends}
use belgrade_os.Calls.{running}
use belgrade_os.Delivery.{commands, xack_calls}
use belgrade_os.Streams.{untrusted_calls_stream}
use belgrade_os.Sample.{codec, env}
use belgrade_os.Platform.AppId.{is_app_id, match_app_id, match_id}
use belgrade_os.Platform.Ephemeral.{
  Sandbox, container_args, container_end, run_container, check_output, read_output, work, run_in,
  run,
}
use belgrade_os.Platform.Ephemeral.Cleanup.{InSandbox, run_cleans}
use belgrade_os.Platform.Untrusted.{app_of, handle_data}
use belgrade_os.Platform.Untrusted.Answers.{IsAcknowledged, handle_data-answers}

abbrev sandbox : Sandbox
sandbox = record {
  seccomp_profile = "/etc/seccomp.json";
  app_dir = λ app_id. "/apps/" <> app_id;
  relative_to_root = λ _. ok tt;
  dumps = λ _. "{}";
  loads_bytes = λ _. ok (obj end);
  exit_text = λ _ _. "Container exited 1";
  repr = λ s. "'" <> s <> "'";
}

app_before_colon : app_of "shopping:add:item" ≡ "shopping"
unfolding app_of
app_before_colon = refl

abbrev ran : History
ran = (run sandbox "t1" "shopping" null env []).1

ran_calls :
    commands ran
    ≡ Cmd.rmtree "/tmp/beg-t1"
      ∷ Cmd.fs_read "/tmp/beg-t1/output.json"
      ∷ Cmd.fs_exists "/tmp/beg-t1/output.json"
      ∷ Cmd.docker_run (container_args sandbox "t1" "shopping")
      ∷ Cmd.fs_write "/tmp/beg-t1/input.json" (123 ∷ 125 ∷ [])
      ∷ Cmd.fs_mkdirs "/tmp/beg-t1"
      ∷ []
unfolding running is_app_id match_app_id match_id container_end run_container check_output
    read_output work run_in run encode
ran_calls = refl

run_cleans_example :
    let mkdirs = Cmd.fs_mkdirs "/tmp/beg-t1" in
    (((is_app_id "t1" && is_app_id "shopping") ≡ false) × (ran ≡ []))
    ⊎ (((is_app_id "t1" && is_app_id "shopping") ≡ true)
        × ((x : Exn) × (ran ≡ (mkdirs, raised x) ∷ [])))
    ⊎ ((between : History) × ((is_app_id "t1" && is_app_id "shopping") ≡ true)
        × Extends (InSandbox sandbox "t1" "shopping") ((mkdirs, ok tt) ∷ []) between
        × (ran ≡ (Cmd.rmtree "/tmp/beg-t1", env between (Cmd.rmtree "/tmp/beg-t1")) ∷ between))
run_cleans_example = run_cleans sandbox "t1" "shopping" null env []

handle_data-answers_example :
    let t' = (handle_data codec sandbox "1-0" (some (1 ∷ [])) env []).1 in
    (xack_calls untrusted_calls_stream t' ≡ xack_calls untrusted_calls_stream [])
    ⊎ ((call : ToolCall) × (codec.parse_call (1 ∷ []) ≡ ok call)
        × IsAcknowledged codec sandbox call "1-0" [] t')
handle_data-answers_example = handle_data-answers codec sandbox "1-0" (1 ∷ []) env []
