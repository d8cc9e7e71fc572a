-- ===== src/Platform.antt =====
-- services/platform_controller: app processes, schedules, sandboxed calls, permissions.
pub mod AppId
pub mod Manifest
pub mod Supervisor
pub mod Tests
pub mod Schedules
pub mod Api
pub mod Ephemeral
pub mod Untrusted
pub mod Permissions
pub mod Boot
