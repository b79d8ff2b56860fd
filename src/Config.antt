-- ===== src/Config.antt =====
-- src/main.go: the configuration of the supervisor and of its applications.
pub mod App
pub mod Glob
pub mod Dependencies
pub mod Permissions
pub mod Validation
pub mod Triggers
pub mod Roots
pub mod Sources
pub mod Libraries
pub mod Templates
pub mod Actions
pub mod Load
pub mod Samples
