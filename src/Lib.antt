-- ===== src/Lib.antt =====
-- Belgrade OS: a platform of apps whose services talk over Redis streams. This library models its
-- Python services.
--
-- A task arrives on `tasks:inbound`; the inference worker asks a model, puts each tool call on the
-- trusted stream `tasks:tool_calls` or the sandbox's stream `tasks:untrusted_calls`, and waits for an
-- answer on `tasks:tool_results`. The runner executes trusted calls by the Bridge. The platform
-- controller keeps the app processes and the schedules, and runs untrusted calls in containers.
-- Notifications and vault files have services of their own, and a watchdog guards the temperature of
-- the machine.
--
-- Base: helpers on lists, integers, dicts and text.
-- Wire: the messages of proto/belgrade_os.proto. Streams: shared/streams.py.
-- World, Prog, Calls: what a service asks of the outside. A program is a function of the outside and of
--   the history of its calls, to a value or an exception and a longer history. The outside is an
--   arbitrary function of the history, so that a theorem holds for all answers, failures included.
-- Codec: the generated protobuf code and the JSON library, as parameters.
-- Delivery: which entries of a stream were delivered, and for which XACK was called or refused.
-- Access: how the services take JSON values apart.
-- Startup: `ensure_consumer_group` of the Redis clients. The modules Main are config.py and `main` of each
--   service, and Services puts them side by side.
-- Runner: services/runner (main.py, worker.py, redis_client.py, bridge_client.py).
-- Inference: services/inference (main.py, worker.py, redis_client.py). `while True` runs under a bound
--   on the rounds; `process_task-ends` says which bound is enough. Providers is
--   services/inference/providers, where what a model library yields is a list.
-- Platform: services/platform_controller. AppId is `_APP_ID_RE`, Manifest and Supervisor are
--   `AppProcess` and `AppSupervisor`, Schedules is scheduler.py with the operations and endpoints of
--   main.py on schedules, the loop that reads the stream of operations (Consumer) and what a job does
--   (Dispatch), Api is the token check and the endpoints, Permissions is `PermissionSyncManager`,
--   Untrusted is `process_untrusted_call` and the loop around it, Ephemeral is ephemeral_runner.py, Boot is
--   `startup_event`.
-- Sdk: sdk/belgrade_sdk. Context and Operations are `AppContext`, `VaultAdapter` and the requests of
--   `InferenceAdapter`, Reading is its `stream` and `await_result`, App is `BelgradeApp`. `while True` of
--   the stream runs under a bound on the turns; `stream-ends` says which bound is enough.
--   Lifecycle is its creation, decorators, start and stop. Apps: apps/shopping and apps/demo_app.
-- Seeding: scripts/seed_permissions.py, with the database as a parameter.
-- Vault: services/vault_service (main.py, worker.py, redis_client.py).
-- Watchdog: services/watchdog/main.py, one value of `Host` for each turn of the loop.
-- Notification: services/notification (main.py, worker.py, redis_client.py, drivers).
-- Mcp: services/mcp_server. Oauth is oauth.py, Listing and Handler are `mcp_handler` of main.py; the token
--   endpoint, the token check and registry.py are in Mcp itself. The JWT library is a parameter.
-- Sample: values for the tests, which stand in the modules Tests.
--
-- The loops of the services run for a given number of turns.
-- Not modelled: the gateway (Go) and the Bridge (Rust), which the services reach over HTTP and Redis;
-- the reading of the settings from the environment, and config.py of the controller; the statements that
-- create its tables; logging; and the start of the HTTP servers.
pub mod Base
pub mod Wire
pub mod World
pub mod Results
pub mod Access
pub mod Prog
pub mod Calls
pub mod Codec
pub mod Delivery
pub mod Streams
pub mod Startup
pub mod Services
pub mod Runner
pub mod Sample
pub mod Inference
pub mod Platform
pub mod Watchdog
pub mod Notification
pub mod Vault
pub mod Sdk
pub mod Apps
pub mod Mcp
pub mod Seeding
