-- ===== src/Manager/Tick.antt =====
-- `tick` and `scheduleDue`: the deadlines, schedules and pool sizes that the supervisor looks at
-- every 25 milliseconds, and the order of its shutdown.
pub mod Supervise
pub mod Demand
pub mod Cadence
pub mod Pool
pub mod Shutdown
pub mod Turn
pub mod Watch
pub mod Deadlines
pub mod Progress
