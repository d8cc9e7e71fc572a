-- ===== src/Sdk.antt =====
-- sdk/belgrade_sdk: what an app does through its context, and the app server.
pub mod Context
pub mod Operations
pub mod Reading
pub mod App
mod Terminal
mod Waiting
mod Hearing
mod Requests
mod Scheduling
mod Execution
pub mod Lifecycle
pub mod Notifying
mod Tests
