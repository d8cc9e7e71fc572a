-- ===== src/Services/Tests.antt =====
-- The four services at a concrete outside.
use belgrade_os.Base.{◌≡◌, refl, some, none, [], ◌∷◌}
use belgrade_os.Base.Int.{pos}
use belgrade_os.World.{ok, Cmd}
use belgrade_os.Calls.{running}
use belgrade_os.Delivery.{commands}
use belgrade_os.Streams.{inbound_stream, tool_results_stream, vault_ops_stream}
use belgrade_os.Startup.{ensure_group}
use belgrade_os.Sample.{codec, env}
use belgrade_os.Inference
use belgrade_os.Runner
use belgrade_os.Notification
use belgrade_os.Vault

abbrev runner : Runner.Main.Config
runner = record {
  redis_url = "redis://r";
  bridge_url = "http://b";
  worker_id = "";
  lease_ttl_s = pos 60;
  tool_timeout_s = pos 30;
}

abbrev notification : Notification.Main.Config
notification = record {
  redis_url = "redis://r";
  ntfy_base_url = "http://ntfy";
  ntfy_topic = "home";
  notification_driver = "ntfy";
  worker_id = "";
}

abbrev paths : Vault.Paths
paths = record {
  resolve = λ path. ok path;
  root = ok "/vault";
  parent = λ _. "/vault";
  tmp_of = λ path. ok path;
}

abbrev vault : Vault.Main.Config
vault = record { vault_path = "/vault"; redis_url = "redis://r"; worker_id = "" }

-- Without a turn: the group, the folder and the end.
vault_calls :
    commands (Vault.Main.main paths codec vault "h" 0 env []).1
    ≡ Cmd.aclose "redis"
      ∷ Cmd.fs_mkdirs "/vault"
      ∷ Cmd.xgroup_create vault_ops_stream "vault-workers"
      ∷ []
unfolding running ensure_group Vault.Main.main Vault.Main.serve Vault.consumer_loop
vault_calls = refl

abbrev inference : Inference.Main.Config
inference = record {
  redis_url = "redis://r";
  provider = "anthropic";
  model = "m";
  max_tokens = pos 8192;
  consumer_id = "";
  anthropic_api_key = some "key";
  google_api_key = none;
  ollama_base_url = "http://o";
}

-- Without a turn: the two groups.
inference_calls :
    commands (Inference.Main.main codec "http://b" "h" inference 0 9 env []).1
    ≡ Cmd.xgroup_create tool_results_stream "inference"
      ∷ Cmd.xgroup_create inbound_stream "inference"
      ∷ []
unfolding running ensure_group Inference.Main.main Inference.Main.serve Inference.consumer_loop
    Inference.Main.ensure_consumer_groups Inference.Main.check_credentials
    Inference.Main.build_provider
inference_calls = refl
