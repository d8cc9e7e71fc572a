-- ===== src/Services.antt =====
-- The start and the end of the inference worker, the runner, the notification service and the vault service.
pub mod Tests
use belgrade_os.Codec.{Codec}
use belgrade_os.Inference
use belgrade_os.Runner
use belgrade_os.Notification
use belgrade_os.Vault
