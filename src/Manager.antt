-- ===== src/Manager.antt =====
-- src/main.go: `manager`, the supervisor's event loop, with the processes, services and lifecycle
-- hooks that it owns.
pub mod Floats
pub mod State
pub mod Pressure
pub mod Hooks
pub mod Dependencies
pub mod Lifecycle
pub mod Messages
pub mod Launch
pub mod Tick
pub mod Apply
pub mod Loop
pub mod Samples
